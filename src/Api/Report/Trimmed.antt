-- ===== src/Api/Report/Trimmed.antt =====
-- api/serv_api.go: the response in the line of the log, whole or cut.
use landau.Common.{
  ◌≡◌, refl, ℕ, zero, suc, ◌+◌, ◌-◌, ◌≤◌, ◌<◌, Bool, true, false, [], ◌∷◌, ◌++◌, Bytes, codes,
  Option, none, some, pos, ◌⊎◌, ◌==◌, bytes_eq, length, take, drop, leb, length-append,
  length-take_le, Bool-cases, inl, inr, arith,
}
use landau.Api.Values.{Response}
use landau.Api.Report.{
  ShowSettings, Reports, Parameter, Printer, default_log_response, set_default_http_log_response,
  cut_response, response_text, report, entry_of, audit, notices, Answered,
}

length-drop : (n : ℕ) (s : Bytes) → n ≤ length s → length (drop n s) ≡ length s - n
length-drop zero s h = omega arith
length-drop (suc n) [] h = absurd (omega arith)
length-drop (suc n) (c ∷ s) h = omega (arith, length-drop n s)

-- A text that is not longer than `size`, or one of 134 runes.
abbrev pub IsShort : ℕ → Option Bytes → Type 0
IsShort size none = ⊥
IsShort size (some text) = (length text ≤ size) ⊎ (length text ≡ 134)

cut_length :
    (msg : Bytes)
    → 64 ≤ length msg
    → length (take 64 msg ++ codes "......" ++ drop (length msg - 64) msg) ≡ 134
cut_length msg h =
    let t = length-take_le 64 msg h in
    let d = length-drop (length msg - 64) msg (omega arith) in
    let a = length-append (take 64 msg ++ codes "......") (drop (length msg - 64) msg) in
    let b : length (take 64 msg ++ codes "......") ≡ length (take 64 msg) + 6 =
      length-append (take 64 msg) (codes "......") in
    omega arith

cut_response-IsShort : (size : ℕ) (msg : Bytes) → 64 ≤ length msg → IsShort size (cut_response msg)
cut_response-IsShort size msg h =
    let long : leb 64 (length msg) ≡ true = ground (arith, h) in rw long (inr (cut_length msg h))

-- With the details switched off by `SetDefaultHTTPLogResponse` a response of 64 runes or more, and one that is not longer than the size that is
-- set, has a text in the log; it is not longer than the size, or cut to 134 runes.
pub default_log_response-IsShort :
    (s : Reports) (size : ℕ) (msg : Bytes)
    → (length msg ≤ size) ⊎ (64 ≤ length msg)
    → IsShort size
        (default_log_response (set_default_http_log_response false (pos size) s).response_show msg)
unfolding default_log_response set_default_http_log_response
default_log_response-IsShort s size msg h = elim (Bool-cases (leb (length msg) size)) [
  | inl t ↦ rw t (inl (ground (arith, t)))
  | inr f ↦
      let long : 64 ≤ length msg = ground (arith, f, h) in rw f (cut_response-IsShort size msg long)
]

default_log_response_panics :
    (shown : ShowSettings) (n : ℕ) (msg : Bytes)
    → shown.show_detail ≡ false
    → shown.show_size ≡ pos n
    → n < length msg
    → length msg < 64
    → default_log_response shown msg ≡ none
unfolding default_log_response
default_log_response_panics shown n msg d z h k =
    let longer : leb (length msg) n ≡ false = ground (arith, h) in
    let few : leb 64 (length msg) ≡ false = ground (arith, k) in rw (d, z, longer, few) refl

module _ (p : Printer) where
  -- At a URL other than "/", where the response's details are switched off and the size is `n` when the
  -- request is answered: a handler that is registered with the default formatter and answers with more
  -- than `n` and less than 64 runes leaves its notices and its audit, but no line and no metric, and its
  -- goroutine panics behind the answer.
  pub report-default_log_response :
      (s : Reports) (n : ℕ) (logger url elapsed : Bytes) (answered : Answered) (escape : Bool)
      (param : Parameter) (request : Bytes) (r : Response)
      → (url == codes "/") ≡ false
      → s.response_show.show_detail ≡ false
      → s.response_show.show_size ≡ pos n
      → n < length (response_text p s escape r)
      → length (response_text p s escape r) < 64
      → report p s
          (record { log_response = default_log_response; logger = logger })
          answered
          escape
          url
          elapsed
          param
          request
          r
        ≡ (notices p s answered r ++ audit p s url param r ++ [], true)
  unfolding report entry_of
  report-default_log_response s n logger url elapsed answered escape param request r u d z h k =
      let text : Bytes = response_text p s escape r in
      rw u (rw (default_log_response_panics s.response_show n text d z h k) refl)
