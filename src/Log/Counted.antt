-- ===== src/Log/Counted.antt =====
-- What becomes of the failures of one probe.
use edge_healthd.Prelude.{ℕ, zero, suc, ◌+◌, ◌≡◌, List, [], ◌∷◌, ◌++◌, map, Str, str, to_string}
use edge_healthd.Log.{Level, warn, Line, Limiters, probe_error}

-- The failures of one probe: when, and with what message.
abbrev pub probe_errors : Level → Str → List (ℕ × Str) → Limiters → List Line × Limiters
probe_errors minimum probe [] l = ([], l)
probe_errors minimum probe ((now, message) ∷ calls) l =
    let (lines, l1) = probe_error minimum now probe message l in
    let (rest, l2) = probe_errors minimum probe calls l1 in (lines ++ rest, l2)

abbrev pub suppressed_text : ℕ → Str
suppressed_text zero = []
suppressed_text (suc n) = str " (suppressed " ++ (to_string (suc n) ++ str ")")

-- The line about a message, which tells of `n` that were suppressed before it.
abbrev pub told_line : Str → Str × ℕ → Line
told_line probe (message, n) = record {
  level = warn;
  message = str "Probe failed [" ++ (probe ++ (str "]: " ++ (message ++ suppressed_text n)));
  fields = (str "PROBE", probe) ∷ (str "ERROR", message) ∷ [];
}

-- The messages that are written, and those they say were suppressed.
abbrev pub accounted : List (Str × ℕ) → ℕ
accounted [] = 0
accounted ((message, n) ∷ told) = 1 + (n + accounted told)

-- What the lines tell, from a limiter with so many suppressed before and so many after.
abbrev pub Accounts : Str → ℕ → ℕ → List Line → Type 0
Accounts probe before after lines =
    (told : List (Str × ℕ)) × (lines ≡ map (told_line probe) told)
    × (accounted told + after ≡ before)
