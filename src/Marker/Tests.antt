-- ===== src/Marker/Tests.antt =====
-- Concrete runs of the marker queue, across the wrap-around of sequence numbers.
use vmwgfx.Prelude.{ℕ, ◌-◌, ◌%◌, ◌≡◌, refl, arith, [], ◌∷◌, List, u32_mod}
use vmwgfx.Marker.{Timespec, Queue, no_time, pull}
use vmwgfx.Marker.Pull.{Emitted, markers_of, after, pull-after}

abbrev time : (sec nsec : ℕ) → Timespec
time sec nsec = record { tv_sec = sec; tv_nsec = nsec }

-- a stand-in for the kernel's function, on whole seconds
abbrev seconds_sub : Timespec → Timespec → Timespec
seconds_sub a b = time (a.tv_sec - b.tv_sec) 0

abbrev emitted : ℕ → Emitted
emitted count = record { count = count; time = time 1 0 }

-- the last number before the wrap-around, and the two behind it
abbrev three : List Emitted
three = emitted 4294967295 ∷ emitted 4294967296 ∷ emitted 4294967297 ∷ []

abbrev queue : Queue
queue = record { markers = markers_of three; lag = no_time; lag_time = no_time }

pull-after_example :
    (pull seconds_sub (time 5 0) (4294967296 % u32_mod) queue).1.markers
    ≡ markers_of (after 4294967296 three)
pull-after_example = pull-after seconds_sub (time 5 0) 4294967296 queue three refl (ground arith)
