-- ===== src/Framing/Reads.antt =====
-- How the reader passes over parts of a stream: several bytes of a size line, of a message, or of
-- the greeting at once.
use hiaux.Base.{
  some, sym, ℕ, zero, suc, ◌+◌, ◌≤◌, ◌<◌, ◌≡◌, ◌≢◌, refl, List, [], ◌∷◌, ◌++◌, true, false, ◌&&◌,
  Bytes, length, take-zero, drop-zero, take, drop, ◌==◌, arith, length-append, append_assoc,
  append-nil, ◌∙◌, ap, take-length, take-append, take-append-drop,
}
use hiaux.Text.Find.{Lacks, find, find-some}
use hiaux.Strings.Numbers.{string_to_uint64}
use hiaux.Framing.{
  read_greeting, greeting, Mode, size_line, body, failed, Reader, Dialect, start_body, end_line,
  read_line, read_size, read_body, read_mode, reads,
}

abbrev pub at : Mode → List Bytes → Reader
at m out = record { mode = m; out = out }

-- The `k` that a frame may not begin with: where it would count as a keepalive.
abbrev pub StartsFrame : Dialect → Bytes → Type 0
StartsFrame d [] = Unit {0}
StartsFrame d (c ∷ s) = d.keepalive && c == b'k' ≡ false

-- The messages are `out`, and others behind them.
abbrev pub Starts : List Bytes → List Bytes → Type 0
Starts out all = (zs : List Bytes) × (all ≡ out ++ zs)

Starts-take : (out all : List Bytes) → take (length out) all ≡ out → Starts out all
Starts-take out all e = (
  drop (length out) all,
  sym (take-append-drop (length out) all) ∙ ap (λ t. t ++ drop (length out) all) e,
)

module _ (d : Dialect) where
  StartsFrame-left : (s t : Bytes) → StartsFrame d (s ++ b'\n' ∷ t) → StartsFrame d s
  StartsFrame-left [] t h = tt
  StartsFrame-left (c ∷ s) t h = h

  pub reads-append : (r : Reader) (s t : Bytes) → reads d r (s ++ t) ≡ reads d (reads d r s) t
  unfolding reads
  reads-append r [] t = refl
  reads-append r (c ∷ s) t = reads-append (read_mode d r.mode r.out c) s t

  reads-read :
      (m : Mode) (out : List Bytes) (c : ℕ) (s : Bytes)
      → reads d (at m out) (c ∷ s) ≡ reads d (read_mode d m out c) s
  unfolding reads
  reads-read m out c s = refl

  pub reads-nil : (r : Reader) → reads d r [] ≡ r
  unfolding reads
  reads-nil r = refl

  -- A keepalive between frames leaves no trace.
  pub reads-keepalive :
      (out : List Bytes) (s : Bytes)
      → d.keepalive ≡ true
      → reads d (at (size_line []) out) (b'k' ∷ s) ≡ reads d (at (size_line []) out) s
  unfolding reads read_mode read_size
  reads-keepalive out s h = simp h

  pub reads-failed : (out : List Bytes) (s : Bytes) → reads d (at failed out) s ≡ at failed out
  unfolding reads read_mode
  reads-failed out [] = refl
  reads-failed out (c ∷ s) = reads-failed out s

  read_line_other :
      (l : Bytes) (out : List Bytes) (c : ℕ)
      → c ≢ b'\n'
      → read_line d l out c ≡ at (size_line (l ++ c ∷ [])) out
  unfolding read_line
  read_line_other l out c h = ground arith

  read_size_end : (l : Bytes) (out : List Bytes) → read_size d l out b'\n' ≡ end_line d l out
  unfolding read_size read_line
  read_size_end [] out = ground arith
  read_size_end (x ∷ l) out = refl

  read_body_more :
      (n : ℕ) (got : Bytes) (out : List Bytes) (c : ℕ)
      → suc (length got) < n
      → read_body d n got out c ≡ at (body n (got ++ c ∷ [])) out
  unfolding read_body
  read_body_more n got out c h = ground (arith, length-append got (c ∷ []))

  read_body_last :
      (n : ℕ) (got : Bytes) (out : List Bytes) (c : ℕ)
      → suc (length got) ≡ n
      → read_body d n got out c ≡ at (size_line []) (out ++ (got ++ c ∷ []) ∷ [])
  unfolding read_body
  read_body_last n got out c h = ground (arith, length-append got (c ∷ []))

  -- Within a line.
  reads_line :
      (x : ℕ) (l : Bytes) (out : List Bytes) (s : Bytes)
      → Lacks b'\n' s
      → reads d (at (size_line (x ∷ l)) out) s ≡ at (size_line (x ∷ (l ++ s))) out
  unfolding reads read_mode read_size
  reads_line x l out [] h = rw append-nil refl
  reads_line x l out (c ∷ s) h = rw (read_line_other (x ∷ l) out c h.0) (
      reads_line x (l ++ c ∷ []) out s h.1
      ∙ ap (λ t. at (size_line (x ∷ t)) out) (append_assoc l (c ∷ []) s))

  pub reads-size_line :
      (out : List Bytes) (s : Bytes)
      → StartsFrame d s
      → Lacks b'\n' s
      → reads d (at (size_line []) out) s ≡ at (size_line s) out
  unfolding reads read_mode read_size
  reads-size_line out [] k h = refl
  reads-size_line out (c ∷ s) k h = rw (k, read_line_other [] out c h.0) (reads_line c [] out s h.1)

  -- Up to the end of a line.
  pub reads-end_line :
      (out : List Bytes) (s t : Bytes)
      → StartsFrame d (s ++ b'\n' ∷ t)
      → Lacks b'\n' s
      → reads d (at (size_line []) out) (s ++ b'\n' ∷ t) ≡ reads d (end_line d s out) t
  unfolding read_mode
  reads-end_line out s t k h =
      reads-append (at (size_line []) out) s (b'\n' ∷ t)
      ∙ ap (λ r. reads d r (b'\n' ∷ t)) (reads-size_line out s (StartsFrame-left s t k) h)
      ∙ reads-read (size_line s) out b'\n' t
      ∙ ap (λ r. reads d r t) (read_size_end s out)

  -- Within a message.
  pub reads_body :
      (n : ℕ) (got : Bytes) (out : List Bytes) (s : Bytes)
      → length got + length s < n
      → reads d (at (body n got) out) s ≡ at (body n (got ++ s)) out
  unfolding reads read_mode
  reads_body n got out [] h = rw append-nil refl
  reads_body n got out (c ∷ s) h = rw (read_body_more n got out c (omega arith)) (
      reads_body n (got ++ c ∷ []) out s (omega (arith, length-append got (c ∷ [])))
      ∙ ap (λ t. at (body n t) out) (append_assoc got (c ∷ []) s))

  -- To the end of a message of `n` bytes, of which `k` are still missing.
  pub reads_whole_body :
      (k n : ℕ) (got : Bytes) (out : List Bytes) (s : Bytes)
      → length got + suc k ≡ n
      → suc k ≤ length s
      → reads d (at (body n got) out) s
        ≡ reads d (at (size_line []) (out ++ (got ++ take (suc k) s) ∷ [])) (drop (suc k) s)
  unfolding reads read_mode
  reads_whole_body k n got out [] h l = absurd (omega arith)
  reads_whole_body zero n got out (c ∷ s) h l =
      rw (read_body_last n got out c (omega arith), take-zero s, drop-zero s) refl
  reads_whole_body (suc k) n got out (c ∷ s) h l = rw (read_body_more n got out c (omega arith)) (
      reads_whole_body k n (got ++ c ∷ []) out s (omega (arith, length-append got (c ∷ [])))
        (omega arith)
      ∙ ap (λ t. reads d (at (size_line []) (out ++ t ∷ [])) (drop (suc k) s))
          (append_assoc got (c ∷ []) (take (suc k) s)))

  pub start_body_empty :
      (out : List Bytes) → start_body d 0 out ≡ at (size_line []) (out ++ [] ∷ [])
  unfolding start_body
  start_body_empty out = ground arith

  pub start_body_more :
      (n : ℕ) (out : List Bytes)
      → suc n ≤ d.limit
      → start_body d (suc n) out ≡ at (body (suc n) []) out
  unfolding start_body
  start_body_more n out h = ground arith

  pub end_line_lem :
      (line : Bytes) (out : List Bytes)
      → end_line d line out ≡ start_body d (string_to_uint64 (d.junk line) line) out
  unfolding end_line
  end_line_lem line out = refl

  pub start_body_over :
      (n : ℕ) (out : List Bytes) → d.limit < n → start_body d n out ≡ at failed out
  unfolding start_body
  start_body_over n out h = ground arith

  -- A whole size line and what it announces.
  pub reads_to_line :
      (out : List Bytes) (t : Bytes) (e : ℕ)
      → StartsFrame d t
      → find b'\n' t ≡ some e
      → reads d (at (size_line []) out) t
        ≡ reads d
            (start_body d (string_to_uint64 (d.junk (take e t)) (take e t)) out)
            (drop (suc e) t)
  reads_to_line out t e k f =
      let (_, lacks, whole) = find-some b'\n' t e f in
      ap (reads d (at (size_line []) out)) (sym whole)
      ∙ reads-end_line out (take e t) (drop (suc e) t) (rw whole k) lacks
      ∙ ap (λ r. reads d r (drop (suc e) t)) (end_line_lem (take e t) out)

  read_mode-starts :
      (m : Mode) (out : List Bytes) (c : ℕ) → take (length out) (read_mode d m out c).out ≡ out
  unfolding read_mode read_greeting read_size read_line end_line start_body read_body
  read_mode-starts (greeting got) out c = ground (arith, take-length out)
  read_mode-starts (size_line []) out c = ground (arith, take-length out, take-append out ([] ∷ []))
  read_mode-starts (size_line (x ∷ l)) out c =
      ground (arith, take-length out, take-append out ([] ∷ []))
  read_mode-starts (body n got) out c =
      ground (arith, take-length out, take-append out ((got ++ c ∷ []) ∷ []))
  read_mode-starts failed out c = take-length out

  -- Reading on leaves the messages and puts others behind them.
  pub reads-Starts : (r : Reader) (s : Bytes) → Starts r.out (reads d r s).out
  unfolding reads
  reads-Starts r [] = ([], sym (append-nil r.out))
  reads-Starts r (c ∷ s) =
      let first = Starts-take r.out _ (read_mode-starts r.mode r.out c) in
      let rest = reads-Starts (read_mode d r.mode r.out c) s in
      (
        first.0 ++ rest.0,
        rest.1 ∙ ap (λ t. t ++ rest.0) first.1 ∙ append_assoc r.out first.0 rest.0,
      )

  read_mode-out :
      (m : Mode) (out : List Bytes) (c : ℕ) → length out ≤ length (read_mode d m out c).out
  unfolding read_mode read_greeting read_size read_line end_line start_body read_body
  read_mode-out (greeting got) out c = ground arith
  read_mode-out (size_line []) out c = ground (arith, length-append out ([] ∷ []))
  read_mode-out (size_line (x ∷ l)) out c = ground (arith, length-append out ([] ∷ []))
  read_mode-out (body n got) out c = ground (arith, length-append out ((got ++ c ∷ []) ∷ []))
  read_mode-out failed out c = omega arith

  -- Reading on takes no message back.
  pub reads-out : (r : Reader) (s : Bytes) → length r.out ≤ length (reads d r s).out
  unfolding reads
  reads-out r [] = omega arith
  reads-out r (c ∷ s) =
      omega (arith, read_mode-out r.mode r.out c, reads-out (read_mode d r.mode r.out c) s)
