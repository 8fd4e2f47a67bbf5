-- ===== src/BinParser/Progress.antt =====
-- The loop of `ReadCommand` ends: each frame takes five bytes of the stream at least.
use a_kerno.Common.{
  ℕ, zero, suc, ◌+◌, ◌≤◌, ◌<◌, ◌≡◌, ◌≢◌, refl, ap, ◌↔◌, Bytes, [], ◌∷◌, length, take, drop, arith,
  Result, ok, err, ◌>>=◌, length-drop,
}
use a_kerno.BinParser.Types.{BinCommand, ReadError}
use a_kerno.BinParser.Slices.{le_decode}
use a_kerno.BinParser.Read.{
  Frame, Pending, Progress, read_full, read_payload, read_frame, on_frame, go_on, read_round,
  read_loop, read_command, nothing,
}

read_full-shrinks :
    (n : ℕ) (s : Bytes) {a b : Bytes} → read_full n s ≡ ok (a, b) → length b + n ≤ length s
unfolding read_full
read_full-shrinks n s h = ground (arith, length-drop n s)

read_payload-shrinks :
    (header s : Bytes) (f : Frame) → read_payload (header, s) ≡ ok f → length f.rest ≤ length s
unfolding read_payload
read_payload-shrinks header s f h =
    ground (arith, length-drop (le_decode (take 4 (drop 1 header))) s)

read_frame-shrinks : (s : Bytes) (f : Frame) → read_frame s ≡ ok f → length f.rest + 5 ≤ length s
unfolding read_frame
read_frame-shrinks s f h =
    ground (arith, length-drop 5 s, read_payload-shrinks (take 5 s) (drop 5 s) f)

-- Nothing but an empty stream gives `io.EOF`: a stream that ends inside a frame is another error.
pub read_frame-eof_iff : (s : Bytes) → (read_frame s ≡ err ReadError.eof) ↔ (s ≡ [])
unfolding read_frame
read_frame-eof_iff [] = (λ _. refl, λ _. refl)
read_frame-eof_iff (b ∷ bs) = (λ h. ground arith, λ h. cc)

read_frame-fuel : (s : Bytes) → read_frame s ≢ err ReadError.out_of_fuel
unfolding read_frame
read_frame-fuel s h = ground arith

on_frame-fuel :
    (p : Pending) (t : ℕ) (payload : Bytes) → on_frame p t payload ≢ err ReadError.out_of_fuel
unfolding on_frame
on_frame-fuel p t payload h = ground arith

-- A result that is no lack of fuel, and leaves fewer than `n` bytes if it is a command.
abbrev pub Advances : ℕ → Result ReadError (BinCommand × Bytes) → Type 0
Advances n (ok (cmd, rest)) = length rest < n
Advances n (err e) = e ≢ ReadError.out_of_fuel

Advances-mono :
    (m n : ℕ) (r : Result ReadError (BinCommand × Bytes)) → m ≤ n → Advances m r → Advances n r
Advances-mono m n (ok (cmd, rest)) h a = omega arith
Advances-mono m n (err e) h a = a

module _ (n : ℕ) (loop : Pending → Bytes → Result ReadError (BinCommand × Bytes))
    (below : (p : Pending) (s : Bytes) → length s < n → Advances (length s) (loop p s)) where
  Advances-go_on :
      (r : Result ReadError Progress) (rest : Bytes)
      → r ≢ err ReadError.out_of_fuel
      → length rest < n
      → Advances n (r >>= λ progress. go_on loop progress rest)
  Advances-go_on (err e) rest ne h = λ q. ne (ap err q)
  Advances-go_on (ok (Progress.done c)) rest ne h = h
  Advances-go_on (ok (Progress.more p)) rest ne h =
      Advances-mono (length rest) n (loop p rest) (omega arith) (below p rest h)

  Advances-on_frame :
      (p : Pending) (r : Result ReadError Frame)
      → r ≢ err ReadError.out_of_fuel
      → ((f : Frame) → r ≡ ok f → length f.rest < n)
      → Advances n (
          r >>= λ frame.
          on_frame p frame.frame_type frame.payload >>= λ progress. go_on loop progress frame.rest)
  Advances-on_frame p (err e) ne h = λ q. ne (ap err q)
  Advances-on_frame p (ok f) ne h =
      Advances-go_on (on_frame p f.frame_type f.payload) f.rest
        (on_frame-fuel p f.frame_type f.payload) (h f refl)

read_loop-Advances :
    (fuel n : ℕ) (p : Pending) (s : Bytes)
    → length s < fuel
    → length s ≡ n
    → Advances n (read_loop fuel p s)
unfolding read_loop read_round
read_loop-Advances zero n p s h e = absurd (omega arith)
read_loop-Advances (suc fuel) n p s h e =
    Advances-on_frame n (read_loop fuel)
      (λ q t lt. read_loop-Advances fuel (length t) q t (omega arith) refl) p (read_frame s)
      (read_frame-fuel s) (λ f eq. omega (arith, read_frame-shrinks s f eq))

-- On every stream `ReadCommand` ends, with an error or with a command that took some bytes of it.
pub read_command-Advances : (s : Bytes) → Advances (length s) (read_command s)
unfolding read_command
read_command-Advances s =
    read_loop-Advances (suc (length s)) (length s) nothing s (omega arith) refl
