-- ===== src/Log/Parsers/Trim.antt =====
-- log/log.go: what cutting a set of bytes off a request leaves of it.
use landau.Common.{ℕ, true, false, [], ◌∷◌, ◌++◌, Bytes, codes, ◌≡◌, refl, some, ◌==◌, bytes_eq}
use landau.Log.Parsers.Text.{member, trim_right_set, trim_set, keep_unless_cut, http_answer}
use landau.Log.Parsers.{Decoder, LogObject, request_part, json_request}

module _ (cutset : Bytes) (b : ℕ) (stays : member b cutset ≡ false) where
  keep_unless_cut-append :
      (c : ℕ) (s : Bytes) → keep_unless_cut cutset c (s ++ b ∷ []) ≡ c ∷ s ++ b ∷ []
  keep_unless_cut-append c [] = refl
  keep_unless_cut-append c (d ∷ s) = refl

  trim_right_set_last : (s : Bytes) → trim_right_set cutset (s ++ b ∷ []) ≡ s ++ b ∷ []
  trim_right_set_last [] = rw stays
  trim_right_set_last (c ∷ s) = rw (trim_right_set_last s) (keep_unless_cut-append c s)

  trim_set_between :
      (a : ℕ) (s : Bytes)
      → member a cutset ≡ false
      → trim_set cutset (a ∷ s ++ b ∷ []) ≡ a ∷ s ++ b ∷ []
  trim_set_between a s h = rw h (trim_right_set_last (a ∷ s))

-- The text of a JSON object.
abbrev pub braced : Bytes → Bytes
braced s = b'{' ∷ s ++ b'}' ∷ []

module _ {V : Type 0} (d : Decoder V) (s : Bytes) (m : LogObject V) where
  -- A request in JSON reaches the decoder as it was sent.
  pub request_part_json :
      request_part d (some (codes "Request:" ++ braced s)) m
      ≡ json_request d (braced s) (d.unmarshal (braced s)) m
  unfolding request_part
  request_part_json = rw (trim_set_between (codes "Request:") b'}' refl b'{' s refl) refl

  -- A request that begins with a letter of the word Request, or with a colon, loses it.
  pub request_part_loses :
      (c : ℕ)
      → member c (codes "Request:") ≡ true
      → request_part d (some (codes "Request:" ++ c ∷ s)) m
        ≡ request_part d (some (codes "Request:" ++ s)) m
  unfolding request_part
  request_part_loses c h = rw h refl

-- The answer to a call keeps the word Response in front of it, unless it is the request's text, so
-- that what is decoded is no JSON text.
pub http_answer_keeps :
    (request s : Bytes)
    → (codes "Response:" ++ braced s == request) ≡ false
    → http_answer request (codes "Response:" ++ braced s) ≡ codes "Response:" ++ braced s
http_answer_keeps request s h =
    rw (trim_set_between (codes "Error:") b'}' refl b'R' (codes "esponse:" ++ b'{' ∷ s) refl, h)
      refl
