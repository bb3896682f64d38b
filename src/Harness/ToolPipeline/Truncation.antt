-- ===== src/Harness/ToolPipeline/Truncation.antt =====
-- What the pipeline keeps of an output.
use reins_core.Prelude.{
  ℕ, zero, suc, ◌-◌, ◌≤◌, ◌<◌, max, ◌≡◌, refl, inl, inr, Option, none, some, ◌++◌, leb, length,
  take, arith, Bool-cases, length-append, length-take,
}
use reins_core.Prelude.Text.{Text}
use reins_core.Harness.Tools.{Output, text, null, value}
use reins_core.Harness.ToolPipeline.{
  truncation_suffix, truncate_text, truncate_serialized, truncate_output,
}

-- The text that is measured: the output itself, or what `JSON.stringify` gives of it.
abbrev pub serialized : {Value : Type 0} → (Output Value → Option Text) → Output Value → Option Text
serialized stringify (text t) = some t
serialized stringify null = stringify null
serialized stringify (value v) = stringify (value v)

-- An output that stays is not measured, or has no text, or fits.
abbrev pub Fits : (max_output_length : ℕ) → Option Text → Type 0
Fits zero shown = Unit
Fits (suc n) none = Unit
Fits (suc n) (some t) = length t ≤ suc n

-- What is left of an output: all of it, or the beginning of its text and the suffix.
abbrev pub IsCut :
    {Value : Type 0}
    → (Output Value → Option Text)
    → (max_output_length : ℕ) → Output Value
    → (kept : Output Value) → (original_length : Option ℕ) → Type 0
IsCut stringify limit output kept none = (kept ≡ output) × Fits limit (serialized stringify output)
IsCut stringify limit output kept (some original) =
    (t : Text) × (serialized stringify output ≡ some t)
    × (original ≡ length t)
    × (limit < original)
    × (kept ≡ text (take (limit - length truncation_suffix) t ++ truncation_suffix))
    × (length (take (limit - length truncation_suffix) t ++ truncation_suffix)
        ≡ max limit (length truncation_suffix))

length_of_cut :
    (n : ℕ) (t : Text)
    → suc n < length t
    → length (take (suc n - length truncation_suffix) t ++ truncation_suffix)
      ≡ max (suc n) (length truncation_suffix)
length_of_cut n t h =
    let size = length-append (take (suc n - length truncation_suffix) t) truncation_suffix in
    omega (arith, size, length-take (suc n - length truncation_suffix) t)

module _ {Value : Type 0} (stringify : Output Value → Option Text) where
  truncate_serialized_lem :
      (n : ℕ) (output : Output Value) (shown : Option Text)
      → serialized stringify output ≡ shown
      → IsCut stringify
          (suc n)
          output
          (truncate_serialized (suc n) output shown).0
          (truncate_serialized (suc n) output shown).1
  unfolding truncate_text
  truncate_serialized_lem n output none e = (refl, rw e tt)
  truncate_serialized_lem n output (some t) e = elim (Bool-cases (leb (length t) (suc n))) [
    | inl fits ↦ rw fits (refl, rw e (ground arith))
    | inr long ↦ rw long (t, e, refl, ground arith, refl, length_of_cut n t (ground arith))
  ]

  -- An output is kept as it is where the limit is 0, where it has no text, or where its text fits
  -- the limit; else the beginning of its text is kept and the suffix is put at its end, which together
  -- have the length of the limit, or of the suffix where that is longer, and the length before is
  -- told.
  pub truncate_output_lem :
      (limit : ℕ) (output : Output Value)
      → IsCut stringify limit output
          (truncate_output stringify limit output).0
          (truncate_output stringify limit output).1
  unfolding truncate_output truncate_text
  truncate_output_lem zero output = (refl, tt)
  truncate_output_lem (suc n) (text t) = truncate_serialized_lem n (text t) (some t) refl
  truncate_output_lem (suc n) null = truncate_serialized_lem n null (stringify null) refl
  truncate_output_lem (suc n) (value v) =
      truncate_serialized_lem n (value v) (stringify (value v)) refl
