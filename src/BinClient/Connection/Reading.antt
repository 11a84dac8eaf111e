-- ===== src/BinClient/Connection/Reading.antt =====
-- The read loop of `performRecv`: when it ends, and with what.
use hiaux.Base.{
  ℕ, zero, suc, ◌+◌, ◌≤◌, ◌≡◌, refl, ap, List, [], ◌∷◌, ◌++◌, Bytes, length, concat, map, arith,
  append_assoc, ◌∙◌, sym, append-nil,
}
use hiaux.BinClient.Connection.{
  Nread, chunk, interrupted, closed, read_bytes, read_lost, read_out_of_fuel, next_recv, read_loop,
  Connection, Call, recv_lost, perform_recv, on_read,
}

-- A `::recv` that was interrupted by a signal is never made again: the loop goes round on the
-- old result and does not end, however long it runs.
pub read_loop_interrupted :
    (fuel : ℕ) (ns : List Nread) (readbf : Bytes)
    → read_loop fuel interrupted ns readbf ≡ read_out_of_fuel
unfolding read_loop
read_loop_interrupted zero ns readbf = refl
read_loop_interrupted (suc fuel) ns readbf = read_loop_interrupted fuel ns readbf

-- Chunks that are there are read, in order, until nothing more is there.
pub read_loop_chunks :
    (ss : List Bytes) (fuel : ℕ) (readbf : Bytes)
    → suc (length ss) ≤ fuel
    → read_loop fuel (next_recv (map chunk ss)).0 (next_recv (map chunk ss)).1 readbf
      ≡ read_bytes (readbf ++ concat ss)
unfolding read_loop
read_loop_chunks [] zero readbf h = absurd (omega arith)
read_loop_chunks [] (suc fuel) readbf h = ap read_bytes (sym (append-nil readbf))
read_loop_chunks (s ∷ ss) zero readbf h = absurd (omega arith)
read_loop_chunks (s ∷ ss) (suc fuel) readbf h =
    read_loop_chunks ss fuel (readbf ++ s) (omega arith)
    ∙ ap read_bytes (append_assoc readbf s (concat ss))

read_loop_closed :
    (ss : List Bytes) (fuel : ℕ) (readbf : Bytes)
    → length ss + 2 ≤ fuel
    → read_loop fuel
        (next_recv (map chunk ss ++ closed ∷ [])).0
        (next_recv (map chunk ss ++ closed ∷ [])).1
        readbf
      ≡ read_lost
unfolding read_loop
read_loop_closed [] zero readbf h = absurd (omega arith)
read_loop_closed [] (suc fuel) readbf h = refl
read_loop_closed (s ∷ ss) zero readbf h = absurd (omega arith)
read_loop_closed (s ∷ ss) (suc fuel) readbf h = read_loop_closed ss fuel (readbf ++ s) (omega arith)

-- Where the server sends and then closes, and the client finds both at once, what was sent is
-- dropped: the connection is lost with no further call, whatever the bytes hold.
pub perform_recv_closed :
    (junk : Bytes → ℕ) (ss : List Bytes) (fuel : ℕ) (c : Connection) (calls : List Call)
    → length ss + 2 ≤ fuel
    → perform_recv junk fuel c calls (map chunk ss ++ closed ∷ []) ≡ recv_lost c calls
unfolding perform_recv
perform_recv_closed junk ss fuel c calls h =
    ap (on_read junk c calls) (read_loop_closed ss fuel [] h)
