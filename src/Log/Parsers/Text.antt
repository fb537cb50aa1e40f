-- ===== src/Log/Parsers/Text.antt =====
-- log/log.go and its parsers: what they use of the package strings, and the choices on plain texts.
use landau.Common.{
  ℕ, zero, suc, ◌-◌, Bool, false, ◌||◌, List, [], ◌∷◌, Bytes, ◌==◌, bytes_eq, nat_beq, codes,
  if◌then◌else◌, starts_with, length,
}

abbrev pub member : ℕ → Bytes → Bool
member c [] = false
member c (d ∷ ds) = nat_beq c d || member c ds

-- `strings.TrimLeft` and `strings.Trim`, of any of the bytes of `cutset`.
abbrev pub trim_left_set : Bytes → Bytes → Bytes
trim_left_set cutset [] = []
trim_left_set cutset (c ∷ s) =
    let rest = trim_left_set cutset s in if member c cutset then rest else c ∷ s

abbrev pub keep_unless_cut : Bytes → ℕ → Bytes → Bytes
keep_unless_cut cutset c [] = if member c cutset then [] else c ∷ []
keep_unless_cut cutset c (d ∷ s) = c ∷ d ∷ s

abbrev pub trim_right_set : Bytes → Bytes → Bytes
trim_right_set cutset [] = []
trim_right_set cutset (c ∷ s) = keep_unless_cut cutset c (trim_right_set cutset s)

abbrev pub trim_set : Bytes → Bytes → Bytes
trim_set cutset s = trim_right_set cutset (trim_left_set cutset s)

-- `strings.ReplaceAll(s, old, "")`; `skip` bytes of an occurrence are still to pass.
abbrev pub erase_from : Bytes → ℕ → Bytes → Bytes
erase_from old skip [] = []
erase_from old (suc k) (c ∷ s) = erase_from old k s
erase_from old zero (c ∷ s) =
    let gone = erase_from old (length old - 1) s in
    let stays = c ∷ erase_from old zero s in if starts_with old (c ∷ s) then gone else stays

abbrev pub erase : Bytes → Bytes → Bytes
erase old s = erase_from old 0 s

-- The text between brackets.
abbrev pub unbracket : Bytes → Bytes
unbracket s = trim_set (codes "]") (trim_set (codes "[") s)

-- The loop over the words behind the method: the first that is not empty, and the last of the others.
abbrev pub url_words : List Bytes → Bytes × Bytes → Bytes × Bytes
url_words [] (url, other) = (url, other)
url_words (w ∷ words) (url, other) =
    url_words words (if w == [] then (url, other) else if url == [] then (w, other) else (url, w))

-- The text of an HTTP response, which the code compares with the request.
abbrev pub http_answer : Bytes → Bytes → Bytes
http_answer request answer =
    let text : Bytes = trim_set (codes "Error:") answer in
    if text == request then trim_set (codes "Response:") answer else text
