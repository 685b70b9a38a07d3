-- ===== src/Sys/Audio.antt =====
-- kernel/sys.cc, play_audio, and kernel/process.cc, findWavHDR: the header of a WAV file and the
-- pieces in which it is played. The header is the memory from `wavhdr` on; a division by 0 traps.
use kernel_development_with.Prelude.{
  ℕ, zero, suc, ◌+◌, ◌-◌, ◌*◌, ◌/◌, ◌%◌, Bool, if◌then◌else◌, ltb, ◌==◌, not, ◌&&◌, List, [], ◌∷◌,
  add32, sub32, mul32,
}
use kernel_development_with.Prelude.Outcome.{Outcome, ok, panic, spinning, ◌>>=◌}
use kernel_development_with.BlockIo.{BlockDevice}
use kernel_development_with.OpenFile
use kernel_development_with.OpenFile.{OpenFile, Reading}
use kernel_development_with.Process.{minus_one}
use kernel_development_with.Sys.{Bytes, store, word}

-- WAVHeader: the fields that are read, at their offsets.
abbrev pub half : Bytes → ℕ → ℕ
half m p = m p + 256 * m (p + 1)

abbrev pub fmt_length : Bytes → ℕ
fmt_length m = word m 16

abbrev pub sample_rate : Bytes → ℕ
sample_rate m = word m 24

abbrev pub sample_rate_eq : Bytes → ℕ
sample_rate_eq m = word m 28

abbrev pub bits_per_sample : Bytes → ℕ
bits_per_sample m = half m 34

abbrev pub data_size : Bytes → ℕ
data_size m = word m 40

-- Four bytes, compared one after the other.
abbrev pub spells : Bytes → ℕ → ℕ → ℕ → ℕ → ℕ → Bool
spells m p a b c d = (m p == a) && (m (p + 1) == b) && (m (p + 2) == c) && (m (p + 3) == d)

module _ (ide : BlockDevice) (block_size : ℕ) where
  -- file->read((char*) wavhdr + at, n)
  unfoldable pub read_into : ℕ → ℕ → Bytes × OpenFile → Outcome (Bytes × OpenFile)
  read_into at n (m, f) = OpenFile.read ide block_size f n >>= λ r. ok (store m at r.bytes, r.file)

  -- file->seek(file->getOffset() + by)
  unfoldable pub skip : ℕ → Bytes × OpenFile → Bytes × OpenFile
  skip by (m, f) = (m, (OpenFile.seek f (add32 f.my_offset by)).1)

  -- findWavHDR: the loops that skip the chunks before "fmt " and before "data"
  unfoldable pub find_fmt : ℕ → Bytes × OpenFile → Outcome (Bytes × OpenFile)
  find_fmt zero s = spinning
  find_fmt (suc fuel) s =
      if spells s.0 12 0x66 0x6d 0x74 0x20
      then ok s
      else read_into 16 4 s >>= λ s1.
          read_into 12 4 (skip (fmt_length s1.0) s1) >>= λ s2. find_fmt fuel s2

  unfoldable pub find_data : ℕ → Bytes × OpenFile → Outcome (Bytes × OpenFile)
  find_data zero s = spinning
  find_data (suc fuel) s =
      if spells s.0 36 0x64 0x61 0x74 0x61
      then ok s
      else read_into 40 4 s >>= λ s1.
          read_into 36 4 (skip (data_size s1.0) s1) >>= λ s2. find_data fuel s2

  -- findWavHDR(file, wavhdr)
  unfoldable pub find_wav_hdr : ℕ → Bytes × OpenFile → Outcome (Bytes × OpenFile)
  find_wav_hdr fuel s = do
    s1 ← read_into 0 16 s
    s2 ← find_fmt fuel s1
    s3 ← read_into 16 4 s2
    s4 ← read_into 20 (add32 (fmt_length s3.0) 4) s3
    s5 ← find_data fuel s4
    read_into 40 4 s5

-- What one round of the loop plays: whether it is the last, the arguments of fillBuffers, how many
-- bytes it takes, and for how long it plays.
pub record Piece : Type 0 where
  pub last : Bool
  pub data_size : ℕ
  pub total_samples : ℕ
  pub bytes : ℕ
  pub duration : ℕ
  pub jiffies : ℕ

-- 32 * buffer_size
abbrev pub full_round : ℕ
full_round = 32 * 131070

-- play_audio: the milliseconds after the whole seconds
unfoldable pub rest_of : ℕ → ℕ → ℕ
rest_of n rate = mul32 (n % rate) 1000 / rate

unfoldable pub piece : ℕ → ℕ → ℕ → Piece
piece rate n total =
    let last = ltb n full_round in
    let taken = if last then n else full_round in
    record {
      last = last;
      data_size = n;
      total_samples = total;
      bytes = taken;
      duration = taken / rate;
      jiffies = rest_of taken rate;
    }

-- play_audio: the loop, with the result of the call and the pieces that have been played
unfoldable pub play_loop : ℕ → ℕ → ℕ → ℕ → Outcome (ℕ × List Piece)
play_loop zero rate n total = spinning
play_loop (suc fuel) rate n total =
    if n == 0
    then ok (1, [])
    else if rate == 0
    then panic
    else let p = piece rate n total in
      if p.duration == minus_one
      then ok (minus_one, [])
      else play_loop fuel rate (if p.last then 0 else n - full_round)
          (if p.last then 0 else sub32 total (0xffff * 32))
        >>= λ r. ok (r.0, p ∷ r.1)

-- play_audio, once the header is there
unfoldable pub play : ℕ → Bytes → Outcome (ℕ × List Piece)
play fuel m =
    if not (spells m 8 0x57 0x41 0x56 0x45)
    then ok (minus_one, [])
    else play_loop fuel (sample_rate_eq m) (data_size m)
        (mul32 (sample_rate m) (bits_per_sample m / 8) / 2)
