-- ===== src/PhysMem/Tests.antt =====
-- Examples of the frame allocator of kernel/physmem.cc.
use kernel_development_with.Prelude.{ℕ, ◌≡◌, refl, List, [], ◌∷◌, arith}
use kernel_development_with.Prelude.Outcome.{Outcome, ok, panic}
use kernel_development_with.Queue.{update}
use kernel_development_with.PhysMem.{
  PhysMem, Memory, alloc_frame, dealloc_frame, init, take_frame, clear_frame,
}
use kernel_development_with.PhysMem.Frames.{Frames}
use kernel_development_with.PhysMem.Client.{
  Call, alloc, give, Client, call, run, run_from, Fits, Sound, run-Sound,
}

abbrev ones : Memory
ones q = 1

abbrev calls : List Call
calls = alloc ∷ alloc ∷ give 1 ∷ alloc ∷ []

-- The frame that was given back first is handed out again.
abbrev lives : Outcome Client → List ℕ
lives (ok c) = c.live
lives panic = []
lives _ = []

run_test : lives (run_from ones 4096 8192 calls) ≡ 4096 ∷ 8192 ∷ []
unfolding init run call alloc_frame take_frame clear_frame dealloc_frame
run_test = refl

run-Sound_example : (c : Client) × (run_from ones 4096 8192 calls ≡ ok c) × Sound 4096 12288 c
unfolding Fits
run-Sound_example =
    run-Sound ones 4096 8192 calls refl refl (omega arith) (omega arith)
      (omega arith, (omega arith, (omega arith, tt)))

-- One frame in use, the other one free.
abbrev half : PhysMem
half = record { memory = update ones 4096 0; first_free = 4096; avail = 12288; limit = 12288 }

half-Frames : Frames 4096 half (4096 ∷ []) (8192 ∷ [])
half-Frames = record {
  chain = (refl, omega arith, refl);
  free_frames = ((omega arith, omega arith, omega arith, refl), tt);
  live_frames = ((omega arith, omega arith, omega arith, refl), tt);
  free_distinct = (tt, tt);
  live_distinct = (tt, tt);
  disjoint = ((omega arith, tt), tt);
  total = refl;
  bound = omega arith;
  limit_aligned = refl;
  start_aligned = refl;
  start_positive = omega arith;
  limit_small = omega arith;
}

abbrev full : Client
full = record {
  live = 4096 ∷ 8192 ∷ [];
  pool = record { memory = ones; first_free = 0; avail = 12288; limit = 12288 };
}

full-Sound : Sound 4096 12288 full
full-Sound = record {
  free = [];
  frames = record {
    chain = refl;
    free_frames = tt;
    live_frames = (
      (omega arith, omega arith, omega arith, refl),
      ((omega arith, omega arith, omega arith, refl), tt),
    );
    free_distinct = tt;
    live_distinct = ((omega arith, tt), (tt, tt));
    disjoint = tt;
    total = refl;
    bound = omega arith;
    limit_aligned = refl;
    start_aligned = refl;
    start_positive = omega arith;
    limit_small = omega arith;
  };
  limit_is = refl;
}
