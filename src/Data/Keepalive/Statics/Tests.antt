-- ===== src/Data/Keepalive/Statics/Tests.antt =====
-- Witnesses of the page of the services.
use landau.Common.{
  ◌≡◌, refl, ◌≢◌, ℕ, List, [], ◌∷◌, Bytes, codes, none, some, inl, arith, insertion_sort,
  insertion_sort-Sorts,
}
use landau.Data.Keepalive.{Keepalive, ServiceHealthInfo, new_service}
use landau.Data.Keepalive.Statics.{
  TraceInfo, TraceHead, TraceModel, less_trace, trace_model, output_keepalive_statics,
}
use landau.Data.Keepalive.Statics.Page.{
  IsTable, ShowsService, ShowsCaller, less_trace-IsStrictOrder, trace_model-IsTable,
  output_keepalive_statics_unaddressed,
}

abbrev no_time : ℕ → Bytes
no_time n = []

abbrev by_name : List TraceInfo → List TraceInfo
by_name = insertion_sort less_trace

abbrev plain_head : TraceHead
plain_head = record {
  query_time = [];
  own_name = codes "shop";
  own_address = codes "a:1";
  secondary_address = [];
  name_head_tag = [];
  address_head_tag = [];
  health_check_period = 5;
  health_check_timeout = 3;
}

abbrev mesh_of : List (Bytes × ServiceHealthInfo) → Keepalive
mesh_of mesh = record {
  service_health_mesh = mesh;
  receive_service_mesh = [];
  primary_to_secondary = [];
  secondary_to_primary = [];
  last_receive_server_check_address = [];
  last_trace_service_address = [];
  receiver_keep_timer = 30;
}

abbrev two_services : Keepalive
two_services = mesh_of (
    (codes "user", new_service (codes "user") (codes "b:80" ∷ codes "a:80" ∷ []))
    ∷ (codes "pay", new_service (codes "pay") (codes "c:80" ∷ []))
    ∷ [])

abbrev no_address : Keepalive
no_address = mesh_of ((codes "user", new_service (codes "user") []) ∷ [])

has_one : (a : Bytes) (l : List Bytes) → (a ∷ l) ≢ []
has_one a l e = ground arith

trace_model-IsTable_example :
    (m : TraceModel) × (trace_model no_time by_name plain_head two_services ≡ some m)
    × IsTable (ShowsService no_time []) two_services.service_health_mesh m.node
    × IsTable (ShowsCaller no_time) [] m.trace_caller_service
trace_model-IsTable_example =
    trace_model-IsTable no_time by_name (insertion_sort-Sorts less_trace less_trace-IsStrictOrder)
      plain_head two_services
      (has_one (codes "b:80") (codes "a:80" ∷ []), (has_one (codes "c:80") [], tt)) tt

output_keepalive_statics_unaddressed_example :
    output_keepalive_statics no_time by_name (λ m. some (codes "page")) plain_head no_address ≡ none
output_keepalive_statics_unaddressed_example =
    output_keepalive_statics_unaddressed no_time by_name (λ m. some (codes "page")) plain_head
      no_address (codes "user") (new_service (codes "user") []) (inl refl) refl
