-- ===== src/Vm/Frames.antt =====
-- Which frame of the swap pool is replaced: `updateFrameIndexToReplace` of src/vmSupport.c.
use mathlib.Core.Path.{subst}
use progetto_so.Base.{
  ℕ, zero, suc, ◌+◌, ◌%◌, ◌≤◌, ◌<◌, ◌≡◌, refl, ◌≢◌, ◌⊎◌, inl, inr, ℤ, pos, negsuc, true, false,
  Bool-cases, Option, none, some, arith, ◌==◌, Returns, returned,
}
use progetto_so.Vm.Defs.{
  Pager, pool_size, is_free, free_frame, next_frame, update_frame_index_to_replace,
}

is_free-true : (z : ℤ) → is_free z ≡ true → z ≡ negsuc 0
unfolding is_free
is_free-true (pos n) h = cc
is_free-true (negsuc zero) h = refl
is_free-true (negsuc (suc n)) h = cc

is_free-false : (z : ℤ) → is_free z ≡ false → z ≢ negsuc 0
unfolding is_free
is_free-false z h e = cc (subst (λ t. is_free t ≡ false) e h)

-- What the search finds among the `k` frames from `i` on.
abbrev pub Found : (ℕ → ℤ) → ℕ → ℕ → Option ℕ → Type 0
Found t i k none = (j : ℕ) → i ≤ j → j < i + k → t j ≢ negsuc 0
Found t i k (some r) =
    (i ≤ r) × (r < i + k) × (t r ≡ negsuc 0) × ((j : ℕ) → i ≤ j → j < r → t j ≢ negsuc 0)

not_here :
    (t : ℕ → ℤ) (i b : ℕ)
    → t i ≢ negsuc 0
    → ((j : ℕ) → i + 1 ≤ j → j < b → t j ≢ negsuc 0)
    → (j : ℕ) → i ≤ j
    → j < b
    → t j ≢ negsuc 0
not_here t i b here later j h h' = elim (Bool-cases (j == i)) [
  | inl e ↦ let same : i ≡ j = ground arith in subst (λ q. t q ≢ negsuc 0) same here
  | inr e ↦ later j (ground arith) h'
]

Found-later :
    (t : ℕ → ℤ) (i k : ℕ) (o : Option ℕ)
    → t i ≢ negsuc 0
    → Found t (i + 1) k o
    → Found t i (suc k) o
Found-later t i k none here f = not_here t i (i + suc k) here (λ j h h'. f j h (omega arith))
Found-later t i k (some r) here (lo, hi, e, low) =
    (omega arith, omega arith, e, not_here t i r here low)

free_frame-Found : (k i : ℕ) (t : ℕ → ℤ) → Found t i k (free_frame k i t)
unfolding free_frame
free_frame-Found zero i t = λ j h h'. absurd (omega arith)
free_frame-Found (suc k) i t = elim (Bool-cases (is_free (t i))) [
  | inl e ↦ rw e (omega arith, omega arith, is_free-true (t i) e, λ j h h'. absurd (omega arith))
  | inr e ↦ rw e (
      Found-later t i k (free_frame k (i + 1) t) (is_free-false (t i) e)
        (free_frame-Found k (i + 1) t))
]

-- The frame `j` is the right one to replace: the first free one, or, where none is free, the one
-- after the frame replaced last, in a ring of sixteen.
abbrev pub IsChoice : Pager → ℕ → Type 0
IsChoice s j =
    (s.sw_asid j ≡ negsuc 0) × ((i : ℕ) → i < j → s.sw_asid i ≢ negsuc 0)
    ⊎ ((i : ℕ) → i < pool_size → s.sw_asid i ≢ negsuc 0)
      × (j ≡ (s.frame_index_to_replace + 1) % pool_size)

choice :
    (s : Pager) (o : Option ℕ)
    → Found s.sw_asid 0 pool_size o
    → (next_frame o s.frame_index_to_replace < pool_size)
      × IsChoice s (next_frame o s.frame_index_to_replace)
unfolding next_frame
choice s none f = (omega arith, inr ((λ i h. f i (omega arith) (omega arith)), refl))
choice s (some r) (lo, hi, e, low) = (omega arith, inl (e, λ i h. low i (omega arith) h))

-- The frame that is replaced.
abbrev pub chosen : Pager → ℕ
chosen s = next_frame (free_frame pool_size 0 s.sw_asid) s.frame_index_to_replace

pub chosen_lt : (s : Pager) → chosen s < pool_size
chosen_lt s =
    (choice s (free_frame pool_size 0 s.sw_asid) (free_frame-Found pool_size 0 s.sw_asid)).0

-- `updateFrameIndexToReplace` stays within the pool, takes the first free frame, and goes round
-- robin when there is none; nothing but the index of the frame is changed.
pub update_frame_index-IsChoice :
    (s : Pager)
    → Returns
        (λ _ t.
          (t.frame_index_to_replace < pool_size)
          × IsChoice s t.frame_index_to_replace
          × (t ≡ record s { frame_index_to_replace = t.frame_index_to_replace }))
        (update_frame_index_to_replace s)
unfolding update_frame_index_to_replace
update_frame_index-IsChoice s =
    let (bound, right) =
      choice s (free_frame pool_size 0 s.sw_asid) (free_frame-Found pool_size 0 s.sw_asid) in
    returned (bound, right, refl)
