-- ===== src/BinServer/Stream.antt =====
-- A whole connection: any number of reads, cut anywhere.
use hiaux.Base.{
  ℕ, zero, suc, ◌<◌, ◌≡◌, refl, List, [], ◌∷◌, ◌++◌, true, false, Option, some, Bytes, length, ◌⊎◌,
  arith, inl, inr, ap, ◌∙◌, sym, map, concat,
}
use hiaux.Framing.{size_line, body, failed, Reader, reads}
use hiaux.Framing.Reads.{at, reads-nil, reads-append, reads-size_line, reads_body, reads-failed}
use hiaux.BinServer.{
  State, reading_size, reading_message, Parser, Outcome, returns, throws, parse, execute, Receipt,
  received, broken, out_of_fuel, pushed, get_request, drain, recv,
}
use hiaux.BinServer.Parsed.{server, start, mode_of, IsReady, Waits, IsWaiting, Parsed, parse-Parsed}
use mathlib.Core.Path.{subst, subst₂}
use mathlib.Core.List.{map-append}

-- The messages that the queue holds when the stream is in error: those before the error, or all of
-- them but the last.
abbrev pub AllButLast : List Bytes → List (Option Bytes) → Type 0
AllButLast out q = (map some out ≡ q) ⊎ ((m : Option Bytes) × (map some out ≡ q ++ m ∷ []))

-- The queue holds the messages read, and the parser stands where the reader does; an error of
-- the stream, and nothing else, breaks the connection.
abbrev pub Agrees : Receipt → Reader → Type 0
Agrees (received q p) r = IsWaiting p × (q ≡ map some r.out) × (mode_of p ≡ r.mode)
Agrees (broken q p) r = (r.mode ≡ failed) × AllButLast r.out q
Agrees out_of_fuel r = ⊥

start_waiting : (st : State) (n : ℕ) (t : Bytes) → Waits st n t → IsReady st n
start_waiting reading_size n t w = tt
start_waiting reading_message n t w = omega arith

module _ (junk : Bytes → ℕ) where
  -- `performRecv` after `performRecv`, until one throws: the server then kills the connection.
  unfoldable pub recv_all : Receipt → List Bytes → Receipt
  recv_all (received q p) [] = received q p
  recv_all (received q p) (s ∷ ss) = recv_all (recv junk q p s) ss
  recv_all (broken q p) ss = broken q p
  recv_all out_of_fuel ss = out_of_fuel

  reads_token :
      (out : List Bytes) (p : Parser)
      → IsWaiting p
      → reads (server junk) (at (start p.state p.size) out) p.cur_token ≡ at (mode_of p) out
  reads_token out p w = go p.state p.size p.cur_token w.waits
    where
      go :
          (st : State) (n : ℕ) (t : Bytes)
          → Waits st n t
          → reads (server junk) (at (start st n) out) t
            ≡ at (elim st [ reading_size ↦ size_line t | reading_message ↦ body n t ]) out
      go reading_size n t w = reads-size_line (server junk) out t w.0 w.1
      go reading_message n t w = reads_body (server junk) n [] out t (omega arith)

  IsReady-size : (p : Parser) → p.state ≡ reading_size → IsReady p.state p.size
  IsReady-size p e = rw e tt

  drain_received :
      (fuel : ℕ) (q : List (Option Bytes)) (p : Parser)
      → p.got_request ≡ false
      → drain junk (suc fuel) q (returns p) ≡ received q p
  unfolding drain
  drain_received fuel q p e = ground arith

  drain_next :
      (fuel : ℕ) (q : List (Option Bytes)) (p : Parser) (m : Bytes)
      → p.got_request ≡ true
      → p.cur_request ≡ some m
      → drain junk (suc fuel) q (returns p)
        ≡ pushed junk
            (λ q' p'. drain junk fuel q' (returns p'))
            q
            (some m, parse junk (record p { got_request = false }))
  unfolding drain get_request
  drain_next fuel q p m e f = ground arith

  rest_Parsed :
      (out : List Bytes) (p : Parser)
      → p.state ≡ reading_size
      → Parsed junk out
          (reads (server junk) (at (size_line []) out) p.cur_token)
          (length p.cur_token)
          (parse junk (record p { got_request = false }))
  rest_Parsed out p e =
      subst
        (λ m.
          Parsed junk out (reads (server junk) (at m out) p.cur_token) (length p.cur_token)
            (parse junk (record p { got_request = false })))
        (ap (λ s. start s p.size) e)
        (parse-Parsed junk out (record p { got_request = false }) refl (IsReady-size p e))

  pushed-Agrees :
      (fuel n : ℕ) (out : List Bytes) (m : Bytes) (r : Reader) (o : Outcome)
      → Parsed junk (out ++ m ∷ []) r n o
      → ((p : Parser)
          → Parsed junk (out ++ m ∷ []) r n (returns p)
          → Agrees (drain junk fuel (map some (out ++ m ∷ [])) (returns p)) r)
      → Agrees (pushed junk (λ q p. drain junk fuel q (returns p)) (map some out) (some m, o)) r
  unfolding pushed
  pushed-Agrees fuel n out m r (throws p) d go =
      (ap (λ x. x.mode) d, inr (some m, ap (λ x. map some x.out) d ∙ map-append some out (m ∷ [])))
  pushed-Agrees fuel n out m r (returns p) d go = rw (← map-append some out (m ∷ [])) (go p d)

  drain-Agrees :
      (fuel n : ℕ) (out : List Bytes) (r : Reader) (o : Outcome)
      → n < fuel
      → Parsed junk out r n o
      → Agrees (drain junk fuel (map some out) o) r
  drain-Agrees zero n out r o h d = absurd (omega arith)
  drain-Agrees (suc fuel) n out r (throws p) h d =
      unfold drain in (ap (λ x. x.mode) d, inl (ap (λ x. map some x.out) d))
  drain-Agrees (suc fuel) n out r (returns p) h (inl (w, e)) =
      rw (drain_received fuel (map some out) p w.no_request) (w, rw e refl, rw e refl)
  drain-Agrees (suc fuel) n out r (returns p) h (inr (m, got, req, st, lt, e)) =
      rw (drain_next fuel (map some out) p m got req, e)
        (pushed-Agrees fuel (length p.cur_token) out m _
          (parse junk (record p { got_request = false })) (rest_Parsed (out ++ m ∷ []) p st)
          (λ p' d.
            drain-Agrees fuel (length p.cur_token) (out ++ m ∷ []) _ (returns p') (omega arith) d))

  pub recv-Agrees :
      (out : List Bytes) (p : Parser) (s : Bytes)
      → IsWaiting p
      → Agrees (recv junk (map some out) p s) (reads (server junk) (at (mode_of p) out) s)
  unfolding recv execute
  recv-Agrees out p [] w =
      rw
        (drain_received (suc (length (p.cur_token ++ []))) (map some out) p w.no_request, reads-nil)
        (w, refl, refl)
  recv-Agrees out p (c ∷ s) w =
      rw
        (
          ← reads_token out p w,
          ← reads-append (server junk) (at (start p.state p.size) out) p.cur_token (c ∷ s),
        )
        (drain-Agrees (suc (suc (length (p.cur_token ++ c ∷ s)))) (length (p.cur_token ++ c ∷ s))
          out _ _ (omega arith)
          (parse-Parsed junk out (record p { cur_token = p.cur_token ++ c ∷ s }) w.no_request
            (start_waiting p.state p.size p.cur_token w.waits)))

  -- Read after read, the connection agrees with the reader of the whole stream.
  pub recv_all-Agrees :
      (rc : Receipt) (r : Reader) (ss : List Bytes)
      → Agrees rc r
      → Agrees (recv_all rc ss) (reads (server junk) r (concat ss))
  unfolding recv_all
  recv_all-Agrees (received q p) r [] a = rw (reads-nil (server junk) r) a
  recv_all-Agrees (received q p) r (s ∷ ss) a = rw (reads-append (server junk) r s (concat ss)) (
      recv_all-Agrees (recv junk q p s) (reads (server junk) r s) ss (
        subst₂ (λ x m. Agrees (recv junk x p s) (reads (server junk) (at m r.out) s)) (sym a.1) a.2
          (recv-Agrees r.out p s a.0)))
  recv_all-Agrees (broken q p) r ss a =
      subst (λ m. Agrees (broken q p) (reads (server junk) (at m r.out) (concat ss))) (sym a.0)
        (rw (reads-failed (server junk) r.out (concat ss)) (refl, a.1))
  recv_all-Agrees out_of_fuel r ss a = elim a [ ]
