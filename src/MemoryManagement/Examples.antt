-- ===== src/MemoryManagement/Examples.antt =====
-- Runs of the heap, and its theorems at concrete heaps.
use pingu_os.Common.{
  ℕ, ◌+◌, ◌≡◌, ◌≢◌, ◌<◌, ◌≤◌, refl, true, false, [], ◌∷◌, arith, Option, none, some,
}
use pingu_os.MemoryManagement.{
  LinearAllocator, Memory, header_size, write, init, find_chunk, align_up, split_chunk, take_chunk,
  give, malloc, free,
}
use pingu_os.MemoryManagement.Blocks.{Blocks, cut, fits, first_fit, alloc}
use pingu_os.MemoryManagement.Malloc.{Represents, Mallocs, malloc-first_fit}
use pingu_os.MemoryManagement.Undo.{free-malloc}
use pingu_os.MemoryManagement.Live.{size_at}
use pingu_os.MemoryManagement.Contract.{
  IsHeap, Changed, init-IsHeap, malloc-Changed, malloc-null, free-Changed,
}
use pingu_os.MemoryManagement.Aligned.{malloc_16_overruns}

abbrev zeros : Memory
zeros _ = record { next = 0; prev = 0; allocated = false; size = 0; offset = 0 }

-- one free chunk of 1000 bytes at 1000
abbrev fresh : LinearAllocator
fresh = init zeros 1000 1020

-- an allocated chunk of 64 bytes at 1000, and the rest
abbrev split : LinearAllocator
split = record {
  m_first = 1000;
  mem =
      write
        (write zeros 1084
          (record { next = 0; prev = 1000; allocated = false; size = 916; offset = 0 }))
        1000 (record { next = 1084; prev = 0; allocated = true; size = 64; offset = 0 });
}

abbrev two : Blocks
two = (64, true) ∷ (916, false) ∷ []

split-IsHeap : IsHeap split 1000 two 2020
unfolding write
split-IsHeap = record {
  represents = record {
    not_null = omega arith;
    within = omega arith;
    first = refl;
    layout = (refl, refl, refl, refl, refl, (refl, refl, refl, refl, tt, refl));
  };
  coalesced = (tt, (tt, tt));
}

abbrev pointer : Option (ℕ × LinearAllocator) → ℕ
pointer none = 0
pointer (some (p, a)) = p

malloc_returns : pointer (malloc 9 fresh 64 0) ≡ 1020
unfolding init write malloc find_chunk give take_chunk align_up split_chunk
malloc_returns = refl

malloc_too_large : pointer (malloc 9 split 916 0) ≡ 0
unfolding write malloc find_chunk give take_chunk align_up split_chunk
malloc_too_large = refl

malloc-first_fit_example :
    Mallocs 1000 ((64, true) ∷ (100, true) ∷ (796, false) ∷ []) 2020 1104 (malloc 3 split 100 0)
unfolding alloc first_fit fits cut
malloc-first_fit_example =
    malloc-first_fit 3 split 100 0 1000 two 2020 split-IsHeap.represents (omega arith) (omega arith)

found : first_fit 100 1000 two ≢ 0
unfolding first_fit fits
found = omega arith

free-malloc_example :
    (p : ℕ) × (a' : LinearAllocator) × (malloc 3 split 100 0 ≡ some (p, a'))
    × (p ≢ 0)
    × Represents (free a' p) 1000 two 2020
free-malloc_example =
    free-malloc 3 split 100 0 1000 two 2020 split-IsHeap.represents split-IsHeap.coalesced
      (omega arith) (omega arith) found

fresh-IsHeap : IsHeap fresh 1000 ((1000, false) ∷ []) 2020
fresh-IsHeap = init-IsHeap zeros 1000 1020 (omega arith) (omega arith) (omega arith)

malloc-Changed_example :
    (t : ℕ) × (n : ℕ) × (a' : LinearAllocator) × (malloc 3 split 100 0 ≡ some (t + header_size, a'))
    × (100 ≤ n)
    × (size_at 1000 two t ≡ none)
    × Changed two a' 1000 2020 t (some n)
malloc-Changed_example =
    malloc-Changed 3 split 100 0 1000 two 2020 split-IsHeap (omega arith) (omega arith) found

malloc-null_example : malloc 3 split 916 0 ≡ some (0, split)
unfolding first_fit fits
malloc-null_example =
    malloc-null 3 split 916 0 1000 two 2020 split-IsHeap (omega arith) (omega arith) refl

free-Changed_example : Changed two (free split 1020) 1000 2020 1000 none
unfolding size_at
free-Changed_example = free-Changed split 1000 1000 64 two 2020 split-IsHeap refl

-- The payload starts at 1020; the next multiple of 16 is 1024, and 1024 + 998 is behind 2020.
malloc_16_overruns_example :
    (p : ℕ) × (a' : LinearAllocator) × (malloc 2 fresh 998 16 ≡ some (p, a')) × (2020 < p + 998)
malloc_16_overruns_example =
    malloc_16_overruns 2 fresh 998 1000 1000 2020 fresh-IsHeap.represents (omega arith)
      (omega arith) (omega arith) (omega arith) (omega arith)
