-- ===== src/Log/Logger/Routes.antt =====
-- log/log.go: how often a message is written, and when it is lost.
use landau.Common.{
  Bool, true, false, ◌||◌, not, List, [], ◌∷◌, ◌++◌, Bytes, ℤ, ◌==◌, bytes_eq, leb, Option, none,
  some, lookup, ◌≡◌, refl, arith, ◌⊎◌, inl, inr, Bool-cases, ◌>>=◌, ap, ◌∙◌,
}
use landau.Log.Parsers.{Decoder, DataLogParser, LogObject, logged_text_to_map}
use landau.Log.Logger.{
  Loggers, Written, logged, redirected, get_logger_safely, log_level, with_keys, log_object,
  json_line, at_level, log_to_stdout_as_json, or_double, write_log,
}

module _ {V : Type 0} (d : Decoder V) (parsers : List (DataLogParser V))
    (marshal : LogObject V → Option Bytes) (instance_id : Bytes) (now : ℤ)
    (logger level text : Bytes) (s : Loggers) where
  abbrev pub Reason : Bytes → Type 0
  Reason logger_level =
      (leb (log_level logger_level) (log_level level) ≡ false)
      ⊎ ((m : LogObject V) × (logged_text_to_map d parsers s.api_logger_name s.gin_logger_name
              logger text
            ≡ some m)
          × (marshal (
                with_keys d parsers marshal instance_id now m
                  (log_object d parsers marshal instance_id now logger level))
              ≡ none))

  -- Why a message may be written nowhere.
  pub record IsLost : Type 0 where
    pub single : s.double_write ≡ false
    pub elsewhere : (logger == s.stdout_to) ≡ false
    pub logger_level : Bytes
    pub is_redirected : lookup logger s.log_to_stdout ≡ some logger_level
    pub reason : Reason logger_level

  nonempty_last : (ws : List Written) (w : Written) → (ws ++ w ∷ []) ≡ [] → ⊥
  nonempty_last [] w h = cc
  nonempty_last (v ∷ ws) w h = cc

  or_double_lost :
      (ws : List Written) (handled : Bool)
      → or_double d parsers marshal instance_id now logger level text s (ws, handled) ≡ []
      → (s.double_write ≡ false) × (handled ≡ true) × (ws ≡ [])
  or_double_lost ws handled h = elim (Bool-cases (not handled || s.double_write)) [
    | inl t ↦ absurd (nonempty_last ws (logged (get_logger_safely logger s) level text) (rw t at h))
    | inr f ↦ (ground arith, ground arith, rw f at h)
  ]

  line_missing : (line : Option Bytes) → redirected s.stdout_to level line ≡ [] → line ≡ none
  line_missing none h = refl
  line_missing (some l) h = cc

  json_line_lost :
      (o : Option (LogObject V))
      → logged_text_to_map d parsers s.api_logger_name s.gin_logger_name logger text ≡ o
      → (o >>= λ m. some (
          redirected s.stdout_to level (
            marshal (
              with_keys d parsers marshal instance_id now m
                (log_object d parsers marshal instance_id now logger level)))))
        ≡ some []
      → (m : LogObject V) × (logged_text_to_map d parsers s.api_logger_name s.gin_logger_name logger
            text
          ≡ some m)
        × (marshal (
              with_keys d parsers marshal instance_id now m
                (log_object d parsers marshal instance_id now logger level))
            ≡ none)
  json_line_lost none e h = cc
  json_line_lost (some m) e h = (m, e, line_missing _ (cc))

  handled_line :
      (o : Option (List Written)) (ws : List Written)
      → (◌>>=◌ {B = List Written × Bool} o λ w. some (w, true)) ≡ some (ws, true)
      → o ≡ some ws
  handled_line none ws h = cc
  handled_line (some w) ws h = cc

  at_level_lost :
      (o : Option Bytes) (ws : List Written)
      → at_level d parsers marshal instance_id now o logger level text s ≡ some (ws, true)
      → ws ≡ []
      → (logger_level : Bytes) × (o ≡ some logger_level) × Reason logger_level
  at_level_lost none ws h w = cc
  at_level_lost (some l) ws h w = elim (Bool-cases (leb (log_level l) (log_level level))) [
    | inl t ↦
        let line =
          handled_line (json_line d parsers marshal instance_id now logger level text s) ws
            (rw t at h) in
        (
          l,
          refl,
          inr (
              json_line_lost
                (logged_text_to_map d parsers s.api_logger_name s.gin_logger_name logger text) refl
                (line ∙ ap some w)),
        )
    | inr f ↦ (l, refl, inl f)
  ]

  log_to_stdout_as_json_lost :
      (ws : List Written)
      → log_to_stdout_as_json d parsers marshal instance_id now logger level text s
        ≡ some (ws, true)
      → ws ≡ []
      → ((logger == s.stdout_to) ≡ false)
        × ((l : Bytes) × (lookup logger s.log_to_stdout ≡ some l) × Reason l)
  unfolding log_to_stdout_as_json
  log_to_stdout_as_json_lost ws h w = elim (Bool-cases (logger == s.stdout_to)) [
    | inl t ↦ let h' = rw t at h in cc
    | inr f ↦ (f, at_level_lost (lookup logger s.log_to_stdout) ws (rw f at h) w)
  ]

  write_log_cases :
      (o : Option (List Written × Bool))
      → log_to_stdout_as_json d parsers marshal instance_id now logger level text s ≡ o
      → (o >>= λ r. some (or_double d parsers marshal instance_id now logger level text s r))
        ≡ some []
      → IsLost
  write_log_cases none e h = cc
  write_log_cases (some (ws, handled)) e h =
      let (single, was, nothing) = or_double_lost ws handled (some_inj _ _ h) in
      let (elsewhere, (l, found, reason)) =
        log_to_stdout_as_json_lost ws (e ∙ ap (λ b. some (ws, b)) was) nothing in
      record {
        single = single;
        elsewhere = elsewhere;
        logger_level = l;
        is_redirected = found;
        reason = reason;
      }
    where
      some_inj : (a b : List Written) → some a ≡ some b → a ≡ b
      some_inj a b p = cc

  pub write_log-IsLost :
      write_log d parsers marshal instance_id now logger level text s ≡ some [] → IsLost
  unfolding write_log
  write_log-IsLost h =
      write_log_cases (log_to_stdout_as_json d parsers marshal instance_id now logger level text s)
        refl h
