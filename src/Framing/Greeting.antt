-- ===== src/Framing/Greeting.antt =====
-- How the reader passes over the greeting.
use hiaux.Base.{
  ℕ, zero, suc, ◌+◌, ◌≤◌, ◌<◌, ◌≡◌, refl, List, [], ◌∷◌, ◌++◌, Bytes, length, take, drop, bytes_eq,
  arith, length-append, append_assoc, append-nil, take-zero, drop-zero, ◌∙◌, ap, if◌then◌else◌,
}
use hiaux.Framing.{greeting, size_line, failed, Reader, Dialect, read_greeting, read_mode, reads}
use hiaux.Framing.Reads.{at}

module _ (d : Dialect) where
  -- Where a complete greeting leads.
  abbrev pub greeted : Bytes → List Bytes → Reader
  greeted g out = if bytes_eq g d.handshake then at (size_line []) out else at failed out

  read_greeting_more :
      (got : Bytes) (out : List Bytes) (c : ℕ)
      → suc (length got) < length d.handshake
      → read_greeting d got out c ≡ at (greeting (got ++ c ∷ [])) out
  unfolding read_greeting
  read_greeting_more got out c h = ground (arith, length-append got (c ∷ []))

  read_greeting_last :
      (got : Bytes) (out : List Bytes) (c : ℕ)
      → suc (length got) ≡ length d.handshake
      → read_greeting d got out c ≡ greeted (got ++ c ∷ []) out
  unfolding read_greeting
  read_greeting_last got out c h = ground (arith, length-append got (c ∷ []))

  -- Within the greeting.
  pub reads_greeting :
      (got : Bytes) (out : List Bytes) (s : Bytes)
      → length got + length s < length d.handshake
      → reads d (at (greeting got) out) s ≡ at (greeting (got ++ s)) out
  unfolding reads read_mode
  reads_greeting got out [] h = rw append-nil refl
  reads_greeting got out (c ∷ s) h = rw (read_greeting_more got out c (omega arith)) (
      reads_greeting (got ++ c ∷ []) out s (omega (arith, length-append got (c ∷ [])))
      ∙ ap (λ t. at (greeting t) out) (append_assoc got (c ∷ []) s))

  -- To its end, `k + 1` bytes ahead.
  pub reads_whole_greeting :
      (k : ℕ) (got : Bytes) (out : List Bytes) (s : Bytes)
      → length got + suc k ≡ length d.handshake
      → suc k ≤ length s
      → reads d (at (greeting got) out) s
        ≡ reads d (greeted (got ++ take (suc k) s) out) (drop (suc k) s)
  unfolding reads read_mode
  reads_whole_greeting k got out [] h l = absurd (omega arith)
  reads_whole_greeting zero got out (c ∷ s) h l =
      rw (read_greeting_last got out c (omega arith), take-zero s, drop-zero s) refl
  reads_whole_greeting (suc k) got out (c ∷ s) h l =
      rw (read_greeting_more got out c (omega arith)) (
        reads_whole_greeting k (got ++ c ∷ []) out s (omega (arith, length-append got (c ∷ [])))
          (omega arith)
        ∙ ap (λ t. reads d (greeted t out) (drop (suc k) s))
            (append_assoc got (c ∷ []) (take (suc k) s)))
