-- ===== src/Nucleus/Devices.antt =====
-- Which device has interrupted, and its semaphore: `getDeviceNoFromLine` and `getSemIndex` of
-- src/interrupts.c.
use mathlib.Core.Path.{subst}
use progetto_so.Base.{
  ℕ, zero, suc, ◌+◌, ◌-◌, ◌*◌, ◌/◌, ◌%◌, ◌^◌, ◌≤◌, ◌<◌, ◌≡◌, refl, ◌≢◌, ◌⊎◌, inl, inr, Bool,
  Bool-cases, arith, ◌==◌, if◌then◌else◌, ok,
}
use progetto_so.Nucleus.Machine.{Arch, Kernel, device_num}
use progetto_so.Nucleus.Calls.{get_sem_index}
use progetto_so.Nucleus.Interrupts.{first_bit}

-- The interrupt lines of the machine, as its manual numbers them.
pub record LinesInOrder (arch : Arch) : Type 0 where
  pub disk : arch.disk_int ≡ 3
  pub flash : arch.flash_int ≡ 4
  pub netw : arch.netw_int ≡ 5
  pub prnt : arch.prnt_int ≡ 6
  pub term : arch.term_int ≡ 7

-- The place of a device among the 48: five groups of lines, the terminals with two each.
abbrev pub place : ℕ → ℕ → Bool → ℕ
place line dev recv = (line - 3) * 8 + dev + (if line == 7 then (if recv then 0 else 8) else 0)

pub get_sem_index-place :
    (arch : Arch) (line dev : ℕ) (recv : Bool) (k : Kernel)
    → LinesInOrder arch
    → 3 ≤ line
    → line ≤ 7
    → dev < 8
    → get_sem_index arch line dev recv k ≡ ok (place line dev recv) k
unfolding get_sem_index
get_sem_index-place arch line dev recv k o h h' small = ground arith

-- Every device has a semaphore of its own, none of them the clock's: the index lies below 48, and
-- two devices with the same index are the same, in the direction too where they are terminals.
pub get_sem_index_injective :
    (arch : Arch) (l d m e i : ℕ) (r s : Bool) (k : Kernel)
    → LinesInOrder arch
    → 3 ≤ l
    → l ≤ 7
    → d < 8
    → 3 ≤ m
    → m ≤ 7
    → e < 8
    → get_sem_index arch l d r k ≡ ok i k
    → get_sem_index arch m e s k ≡ ok i k
    → (i < device_num - 1) × (l ≡ m) × (d ≡ e) × ((l ≢ 7) ⊎ (r ≡ s))
get_sem_index_injective arch l d m e i r s k o h₁ h₂ h₃ h₄ h₅ h₆ p q =
    ground (arith, get_sem_index-place arch l d r k, get_sem_index-place arch m e s k)

abbrev pub bit : ℕ → ℕ → ℕ
bit j bits = bits / 2 ^ j % 2

clear_from :
    (i b bits : ℕ)
    → bit i bits ≢ 1
    → ((j : ℕ) → i + 1 ≤ j → j < b → bit j bits ≢ 1)
    → (j : ℕ) → i ≤ j
    → j < b
    → bit j bits ≢ 1
clear_from i b bits here later j h h' = elim (Bool-cases (j == i)) [
  | inl e ↦ let same : i ≡ j = ground arith in subst (λ t. bit t bits ≢ 1) same here
  | inr e ↦ later j (ground arith) h'
]

-- `getDeviceNoFromLine` finds the lowest pending device of the line, and answers -1 as an unsigned
-- word only where none of the devices is pending.
pub first_bit_lowest :
    (n i bits : ℕ)
    → ((j : ℕ) → i ≤ j → j < i + n → bit j bits ≢ 1) × (first_bit n i bits ≡ 2 ^ 32 - 1)
      ⊎ (i ≤ first_bit n i bits)
        × (first_bit n i bits < i + n)
        × (bit (first_bit n i bits) bits ≡ 1)
        × ((j : ℕ) → i ≤ j → j < first_bit n i bits → bit j bits ≢ 1)
unfolding first_bit
first_bit_lowest zero i bits = inl ((λ j h h'. absurd (omega arith)), refl)
first_bit_lowest (suc n) i bits = elim (Bool-cases (bit i bits == 1)) [
  | inl e ↦ rw e (inr (omega arith, omega arith, ground arith, λ j h h'. absurd (omega arith)))
  | inr e ↦
      let here : bit i bits ≢ 1 = ground arith in
      rw e (elim (first_bit_lowest n (i + 1) bits) [
        | inl (none, r) ↦
            inl (clear_from i (i + suc n) bits here (λ j h h'. none j h (omega arith)), r)
        | inr (lo, hi, set, low) ↦
            inr
              (omega arith, omega arith, set, clear_from i (first_bit n (i + 1) bits) bits here low)
      ])
]
