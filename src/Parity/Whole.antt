-- ===== src/Parity/Whole.antt =====
-- For every line the two tokenizers, and the two parsers behind them, have one result.
use mojo_jojo.Base.{
  ℕ, zero, suc, ◌+◌, ◌-◌, ◌*◌, ◌≤◌, List, [], ◌∷◌, refl, inl, inr, arith, length, take, drop, min,
  length-replicate, Bytes, ltb, Bool-cases,
}
use mojo_jojo.Lexer.Chars.{is_space}
use mojo_jojo.Lexer.Flow.{Limits, skip_while}
use mojo_jojo.Tokenizer.{tokenize_range}
use mojo_jojo.FastTokenizer
use mojo_jojo.FastTokenizer.{Buffer, Scratch, reserve, last_tok, triple_capacity}
use mojo_jojo.Parity.Sim.{Sim, Sim-weaken, flatten, Agrees, SimFlow-last}
use mojo_jojo.Parity.Tags.{resume-Sim}
use mojo_jojo.Parity.Rfc.{length-skip_while, tokenize_line-Sim}

length-reserve : (room : ℕ) (scratch : List ℕ) → room ≤ length (reserve room scratch).out
unfolding reserve
length-reserve room scratch = elim (Bool-cases (ltb (length scratch) room)) [
  | inl e ↦ rw e (omega (arith, length-replicate {A = ℕ} room 0))
  | inr e ↦ rw e (ground arith)
]

-- At the start no token is there, whatever the array held.
Sim-start : (room n : ℕ) (scratch : List ℕ) → 3 * room ≤ n → Sim room [] (reserve n scratch)
Sim-start room n scratch h =
    let long = length-reserve n scratch in
    record {
      index = unfold reserve in refl;
      fits = omega arith;
      written = unfold flatten in refl;
      same_last = unfold reserve last_tok in refl;
    }

length-take-le : (n : ℕ) (xs : Bytes) → length (take n xs) ≤ n
length-take-le zero xs = omega arith
length-take-le (suc n) [] = omega arith
length-take-le (suc n) (x ∷ xs) = omega (arith, length-take-le n xs)

length-drop-take : (s n : ℕ) (xs : Bytes) → length (drop s (take n xs)) ≤ n - s
length-drop-take zero n xs = omega (arith, length-take-le n xs)
length-drop-take (suc s) zero xs = omega arith
length-drop-take (suc s) (suc n) [] = omega arith
length-drop-take (suc s) (suc n) (x ∷ xs) = omega (arith, length-drop-take s n xs)

-- On every range of every buffer whose start is not behind its end, with any limits and whatever an earlier call left in the array, the
-- fast tokenizer leaves the triples of the reference's tokens and their count, all inside its array,
-- or throws the reference's error.
pub tokenizers_agree :
    (limits : Limits) (scratch : List ℕ) (buffer : Bytes) (start end : ℕ)
    → start ≤ min (length buffer) end
    → Agrees
        (tokenize_range limits buffer start end)
        (FastTokenizer.tokenize_range limits scratch buffer start end)
unfolding tokenize_range FastTokenizer.tokenize_range triple_capacity
tokenizers_agree limits scratch buffer start end ordered =
    SimFlow-last 4 _ _
      (resume-Sim 3 scan.0 scan.1 (
        Sim-weaken (omega (arith, shorter, in_range))
          (Sim-start (2 * (end' - start) + 16) _ scratch (omega arith))))
      (tokenize_line-Sim 0 (suc (length range)) limits)
  where
    end' : ℕ
    end' = min (length buffer) end

    range : Bytes
    range = drop start (take end' buffer)

    scan : ℕ × Bytes
    scan = skip_while is_space start range

    shorter : length scan.1 ≤ length range
    shorter = length-skip_while is_space start range

    in_range : length range ≤ end' - start
    in_range = length-drop-take start end' buffer
