-- ===== src/Sys/Playing.antt =====
-- kernel/sys.cc: what the loop of play_audio plays.
use kernel_development_with.Prelude.{
  ℕ, zero, suc, ◌+◌, ◌-◌, ◌*◌, ◌/◌, ◌%◌, ◌^◌, ◌≤◌, ◌<◌, ◌≡◌, ◌⊎◌, inl, inr, refl, sym, ap, ◌∙◌,
  Bool, true, false, ◌==◌, List, [], ◌∷◌, arith, sub32, eq→==, ne→==, lt→ltb, ge→ltb, ℕ_discrete,
  dec_lt,
}
use native.Mathlib.Nat.{
  mod-lt, mod-eq_of_lt, div-add-mod', add-mul-div_right, add_comm, add-mul, mul_right_comm,
  div-le_self,
}
use kernel_development_with.Prelude.Outcome.{ok, ◌>>=◌}
use kernel_development_with.Process.{minus_one}
use kernel_development_with.Sys.Audio.{Piece, full_round, rest_of, piece, play_loop}

-- The bytes of some pieces, and their time in milliseconds.
abbrev pub all_bytes : List Piece → ℕ
all_bytes [] = 0
all_bytes (p ∷ ps) = p.bytes + all_bytes ps

-- Every piece plays as long as its bytes last; all but the last are full rounds.
abbrev pub Timely : ℕ → List Piece → Type 0
Timely rate [] = Unit {0}
Timely rate (p ∷ ps) =
    (p.duration * 1000 + p.jiffies ≡ p.bytes * 1000 / rate)
    × ((p.last ≡ true) ⊎ (p.bytes ≡ full_round))
    × Timely rate ps

apart_of : (q r m : ℕ) → (q * r + m) * 1000 ≡ m * 1000 + q * 1000 * r
apart_of q r m =
    add-mul (q * r) m 1000
    ∙ add_comm (q * r * 1000) (m * 1000)
    ∙ ap (λ z. m * 1000 + z) (mul_right_comm q r 1000)

milliseconds :
    (n rate : ℕ) → 0 < rate → rate ≤ 2 ^ 22 → n / rate * 1000 + rest_of n rate ≡ n * 1000 / rate
unfolding rest_of
milliseconds n rate h k =
    let m = mod-lt n h in
    let s : n % rate * 1000 < 2 ^ 32 = omega arith in
    let e : n ≡ n / rate * rate + n % rate = sym (div-add-mod' n rate) in
    rw (mod-eq_of_lt s) (
      sym (
        ap (λ z. z * 1000 / rate) e
        ∙ ap (λ z. z / rate) (apart_of (n / rate) rate (n % rate))
        ∙ add-mul-div_right (n % rate * 1000) (n / rate * 1000) h
        ∙ add_comm (n % rate * 1000 / rate) (n / rate * 1000)))

-- The piece of a round, when it is the last and when it is not.
record Plays (rate : ℕ) (p : Piece) (last : Bool) (n : ℕ) : Type 0 where
  ends : p.last ≡ last
  takes : p.bytes ≡ n
  seconds : p.duration ≡ n / rate
  rest : p.jiffies ≡ rest_of n rate

piece-short : (rate n total : ℕ) → n < full_round → Plays rate (piece rate n total) true n
unfolding piece
piece-short rate n total h =
    let e = lt→ltb n full_round h in
    record { ends = e; takes = rw e refl; seconds = rw e refl; rest = rw e refl }

piece-full : (rate n total : ℕ) → full_round ≤ n → Plays rate (piece rate n total) false full_round
unfolding piece
piece-full rate n total h =
    let e = ge→ltb n full_round h in
    record { ends = e; takes = rw e refl; seconds = rw e refl; rest = rw e refl }

module _ (rate : ℕ) (r : 0 < rate) (k : rate ≤ 2 ^ 22) where
  not_minus_one :
      (p : Piece) (last : Bool) (n : ℕ)
      → Plays rate p last n
      → n ≤ full_round
      → (p.duration == minus_one) ≡ false
  not_minus_one p last n P h =
      let e = P.seconds in let d = div-le_self n rate in ne→== p.duration minus_one (omega arith)

  on_time :
      (p : Piece) (last : Bool) (n : ℕ)
      → Plays rate p last n
      → p.duration * 1000 + p.jiffies ≡ p.bytes * 1000 / rate
  on_time p last n P = rw (P.seconds, P.rest, P.takes) (milliseconds n rate r k)

  -- With a byte rate of at least 1 and at most 2 ^ 22, and fuel for one round more than 32
  -- buffers go into the data, the loop of play_audio ends with the result 1: its pieces take all
  -- the bytes of the data, each but the last takes 32 full buffers, and each plays for as many
  -- milliseconds as its bytes last, rounded down; so the test for a duration of -1 never holds.
  pub play_loop-Timely :
      (fuel n total : ℕ)
      → (n + full_round - 1) / full_round < fuel
      → (ps : List Piece) × (play_loop fuel rate n total ≡ ok (1, ps))
        × (all_bytes ps ≡ n)
        × Timely rate ps
  unfolding play_loop
  play_loop-Timely zero n total h = elim h [ ]
  play_loop-Timely (suc fuel) n total h =
      let p = piece rate n total in
      let ne = ne→== rate 0 (omega (arith, r)) in
      elim (ℕ_discrete n 0) [
        | yes e ↦ ([], rw (eq→== n 0 e) refl, sym e, tt)
        | no e ↦ elim (dec_lt n full_round) [
          | yes l ↦
              let (ps, c, s, t) = play_loop-Timely fuel 0 0 (omega arith) in
              let P = piece-short rate n total l in
              (
                p ∷ ps,
                rw (ne→== n 0 e, ne, not_minus_one p true n P (omega arith), P.ends, c, ◌>>=◌) refl,
                (let b = P.takes in omega arith),
                (on_time p true n P, inl P.ends, t),
              )
          | no l ↦
              let (ps, c, s, t) =
                play_loop-Timely fuel (n - full_round) (sub32 total (0xffff * 32)) (omega arith) in
              let P = piece-full rate n total (omega arith) in
              (
                p ∷ ps,
                rw
                    (
                      ne→== n 0 e,
                      ne,
                      not_minus_one p false full_round P (omega arith),
                      P.ends,
                      c,
                      ◌>>=◌,
                    )
                    refl,
                (let b = P.takes in omega arith),
                (on_time p false full_round P, inr P.takes, t),
              )
        ]
      ]
