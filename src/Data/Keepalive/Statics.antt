-- ===== src/Data/Keepalive/Statics.antt =====
-- data/service_keepalive.go: the page of `OutputKeepaliveStatics`. The texts of times, the sort and the
-- template are arguments; a run that panics has no page.
pub mod Page
mod Tests
use landau.Common.{
  ℕ, ◌+◌, Bool, true, false, ◌&&◌, List, [], ◌∷◌, ◌++◌, ◌==◌, nat_eq, bytes_eq, Bytes, codes,
  Option, none, some, if◌then◌else◌, lookup, has, lookup_or, length, bytes_ltb, ltb, format_int,
  pos,
}
use landau.Data.Keepalive.{ServiceHealthInfo, Keepalive}

pub record RowShowInfo : Type 0 where
  pub row_address : Bytes
  pub row_health : Bytes
  pub row_call_count : ℕ
  pub row_receive_time : Bytes

pub record TraceInfo : Type 0 where
  pub trace_name : Bytes
  pub address_num : ℕ
  pub first_address : Bytes
  pub first_health : Bytes
  pub first_call_count : ℕ
  pub first_receive_time : Bytes
  pub other_address : List RowShowInfo

-- The service's own names and periods, which the page repeats.
pub record TraceHead : Type 0 where
  pub query_time : Bytes
  pub own_name : Bytes
  pub own_address : Bytes
  pub secondary_address : Bytes
  pub name_head_tag : Bytes
  pub address_head_tag : Bytes
  pub health_check_period : ℕ
  pub health_check_timeout : ℕ

pub record TraceModel : Type 0 where
  pub head : TraceHead
  pub shown_address : Bytes
  pub keep_timer : ℕ
  pub node : List TraceInfo
  pub trace_caller_service : List TraceInfo
  pub last_trace_service : List TraceInfo

-- `Less`.
abbrev pub less_trace : TraceInfo → TraceInfo → Bool
less_trace a b =
    if a.trace_name == b.trace_name
    then ltb a.address_num b.address_num
    else bytes_ltb a.trace_name b.trace_name

-- An address with its secondary one in red.
abbrev pub in_red : Bytes → Bytes → Bytes
in_red addr v = addr ++ codes " <label style=\"color:red\">" ++ v ++ codes "</label>"

abbrev pub marked_address : Bytes → Option Bytes → Bytes × Bool
marked_address addr none = (addr, false)
marked_address addr (some v) = (in_red addr v, true)

-- `outputServiceAddress`.
unfoldable pub output_service_address : List (Bytes × Bytes) → Bytes → Bytes × Bool
output_service_address primary_to_secondary addr =
    marked_address addr (lookup addr primary_to_secondary)

abbrev red_one : Bytes
red_one = codes "<label style=\"color:red\">1</label>"

-- The health of the first address.
abbrev pub first_health_text : ServiceHealthInfo → Bytes → Bool → Bytes
first_health_text d address have_secondary =
    if have_secondary && has address d.health_on_secondary && (lookup_or address 0 d.health == 1)
    then red_one
    else format_int (pos (lookup_or address 0 d.health))

-- The health of another address.
abbrev pub health_text : ServiceHealthInfo → Bytes → Bool → Bytes
health_text d address have_secondary =
    if have_secondary && has address d.health_on_secondary && (lookup_or address 0 d.health == 1)
    then red_one
    else format_int (pos (lookup_or address 0 d.health))

abbrev pub with_trace : Option TraceInfo → Option (List TraceInfo) → Option (List TraceInfo)
with_trace none more = none
with_trace (some v) none = none
with_trace (some v) (some vs) = some (v ∷ vs)

module _ (format_time : ℕ → Bytes) where
  -- A row of a configured service's address behind the first.
  abbrev pub service_row : List (Bytes × Bytes) → ServiceHealthInfo → Bytes → RowShowInfo
  service_row primary_to_secondary d address =
      let (addr, have_secondary) = output_service_address primary_to_secondary address in
      record {
        row_address = addr;
        row_health = health_text d address have_secondary;
        row_call_count = lookup_or address 0 d.call_count;
        row_receive_time = format_time (lookup_or address 0 d.receive_time);
      }

  abbrev pub service_rows : List (Bytes × Bytes) → ServiceHealthInfo → List Bytes → List RowShowInfo
  service_rows primary_to_secondary d [] = []
  service_rows primary_to_secondary d (a ∷ address) =
      service_row primary_to_secondary d a ∷ service_rows primary_to_secondary d address

  -- A configured service with the rows of its addresses; `d.Address[0]` panics where there is none.
  unfoldable pub service_trace :
      List (Bytes × Bytes) → Bytes → ServiceHealthInfo → List Bytes → Option TraceInfo
  service_trace primary_to_secondary name d [] = none
  service_trace primary_to_secondary name d (a ∷ address) =
      let (addr, have_secondary) = output_service_address primary_to_secondary a in
      some (record {
        trace_name = name;
        address_num = length (a ∷ address);
        first_address = addr;
        first_health = first_health_text d a have_secondary;
        first_call_count = lookup_or a 0 d.call_count;
        first_receive_time = format_time (lookup_or a 0 d.receive_time);
        other_address = service_rows primary_to_secondary d address;
      })

  -- The loop over the configured services.
  unfoldable pub service_traces :
      List (Bytes × Bytes) → List (Bytes × ServiceHealthInfo) → Option (List TraceInfo)
  unfolding service_trace
  service_traces primary_to_secondary [] = some []
  service_traces primary_to_secondary ((name, d) ∷ mesh) =
      with_trace (service_trace primary_to_secondary name d d.address)
        (service_traces primary_to_secondary mesh)

  -- A row of an address behind the first of a service that has announced itself.
  abbrev pub caller_row : ServiceHealthInfo → Bytes → RowShowInfo
  caller_row d address = record {
    row_address = address;
    row_health = [];
    row_call_count = lookup_or address 0 d.call_count;
    row_receive_time = format_time (lookup_or address 0 d.receive_time);
  }

  abbrev pub caller_rows : ServiceHealthInfo → List Bytes → List RowShowInfo
  caller_rows d [] = []
  caller_rows d (a ∷ address) = caller_row d a ∷ caller_rows d address

  -- A service that has announced itself; here too `d.Address[0]` panics where there is none.
  unfoldable pub caller_trace : Bytes → ServiceHealthInfo → List Bytes → Option TraceInfo
  caller_trace name d [] = none
  caller_trace name d (a ∷ address) = some (record {
    trace_name = name;
    address_num = length (a ∷ address);
    first_address = a;
    first_health = [];
    first_call_count = lookup_or a 0 d.call_count;
    first_receive_time = format_time (lookup_or a 0 d.receive_time);
    other_address = caller_rows d address;
  })

  -- The loop over the services that have announced themselves.
  unfoldable pub caller_traces : List (Bytes × ServiceHealthInfo) → Option (List TraceInfo)
  unfolding caller_trace
  caller_traces [] = some []
  caller_traces ((name, d) ∷ mesh) = with_trace (caller_trace name d d.address) (caller_traces mesh)

-- `rangeAdd` over `LastTraceServiceAddress`.
abbrev pub last_traces : List (Bytes × Bytes) → List TraceInfo
last_traces [] = []
last_traces ((name, address) ∷ more) =
    record {
      trace_name = name;
      address_num = 0;
      first_address = address;
      first_health = [];
      first_call_count = 0;
      first_receive_time = [];
      other_address = [];
    }
    ∷ last_traces more

-- A table is sorted if it has an entry.
abbrev pub sort_filled : (List TraceInfo → List TraceInfo) → List TraceInfo → List TraceInfo
sort_filled sort [] = []
sort_filled sort (v ∷ vs) = sort (v ∷ vs)

abbrev shown_own : TraceHead → Bytes
shown_own h =
    if h.secondary_address == [] then h.own_address else in_red h.own_address h.secondary_address

module _ (format_time : ℕ → Bytes) (sort : List TraceInfo → List TraceInfo) where
  abbrev pub page_model : TraceHead → Keepalive → List TraceInfo → List TraceInfo → TraceModel
  page_model h k nodes callers = record {
    head = h;
    shown_address = shown_own h;
    keep_timer = k.receiver_keep_timer;
    node = sort_filled sort nodes;
    trace_caller_service = sort_filled sort callers;
    last_trace_service = sort_filled sort (last_traces k.last_trace_service_address);
  }

  -- A panic in one of the loops ends the call.
  abbrev pub model_of :
      TraceHead → Keepalive → Option (List TraceInfo) → Option (List TraceInfo) → Option TraceModel
  model_of h k none callers = none
  model_of h k (some nodes) none = none
  model_of h k (some nodes) (some callers) = some (page_model h k nodes callers)

  -- The model of the page.
  unfoldable pub trace_model : TraceHead → Keepalive → Option TraceModel
  unfolding service_traces caller_traces
  trace_model h k =
      model_of h k (service_traces format_time k.primary_to_secondary k.service_health_mesh)
        (caller_traces format_time k.receive_service_mesh)

  abbrev answer_page : Option Bytes → Bytes
  answer_page none = codes "nothing"
  answer_page (some page) = page

  abbrev pub page_of : (TraceModel → Option Bytes) → Option TraceModel → Option Bytes
  page_of execute none = none
  page_of execute (some m) = some (answer_page (execute m))

  -- `OutputKeepaliveStatics`; `execute` is the template, which may fail.
  unfoldable pub output_keepalive_statics :
      (TraceModel → Option Bytes) → TraceHead → Keepalive → Option Bytes
  unfolding trace_model
  output_keepalive_statics execute h k = page_of execute (trace_model h k)
