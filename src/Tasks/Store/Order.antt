-- ===== src/Tasks/Store/Order.antt =====
-- The order of the listed tasks: the newest first, and of equally old ones the greater identity first.
use reins_core.Prelude.{
  ◌≡◌, refl, ◌⊎◌, inl, inr, true, false, [], ◌∷◌, arith, Bool-cases, All, All-mono,
}
use reins_core.Prelude.Text.{Text}
use reins_core.Tasks.Store.{Task, Rows, text_leb, newer, insert_row, sort_rows}

text_leb_refl : (s : Text) → text_leb s s ≡ true
unfolding text_leb
text_leb_refl [] = refl
text_leb_refl (c ∷ s) = ground (arith, text_leb_refl s)

text_leb_total : (s t : Text) → (text_leb s t ≡ true) ⊎ (text_leb t s ≡ true)
unfolding text_leb
text_leb_total [] t = inl refl
text_leb_total (c ∷ s) [] = inr refl
text_leb_total (c ∷ s) (d ∷ t) = ground (arith, text_leb_total s t)

text_leb_trans : (s t u : Text) → text_leb s t ≡ true → text_leb t u ≡ true → text_leb s u ≡ true
unfolding text_leb
text_leb_trans [] t u h k = refl
text_leb_trans (c ∷ s) [] u h k = cc
text_leb_trans (c ∷ s) (d ∷ t) [] h k = cc
text_leb_trans (c ∷ s) (d ∷ t) (e ∷ u) h k = ground (arith, text_leb_trans s t u)

pub newer_refl : (a : Task) → newer a a ≡ true
unfolding newer
newer_refl a = ground (arith, text_leb_refl a.id)

newer_total : (a b : Task) → newer a b ≡ false → newer b a ≡ true
unfolding newer
newer_total a b h = ground (arith, text_leb_total a.id b.id)

newer_trans : (a b c : Task) → newer a b ≡ true → newer b c ≡ true → newer a c ≡ true
unfolding newer
newer_trans a b c h k = ground (arith, text_leb_trans c.id b.id a.id)

abbrev pub IsSorted : Rows → Type 0
IsSorted [] = Unit
IsSorted (task ∷ rows) = All (λ other. newer task other ≡ true) rows × IsSorted rows

pub All-insert_row :
    (P : Task → Type 0) (task : Task) (rows : Rows)
    → P task
    → All P rows
    → All P (insert_row task rows)
unfolding insert_row
All-insert_row P task [] p ps = (p, tt)
All-insert_row P task (row ∷ rows) p (q, ps) = elim (Bool-cases (newer task row)) [
  | inl first ↦ rw first (p, (q, ps))
  | inr later ↦ rw later (q, All-insert_row P task rows p ps)
]

pub All-sort_rows : (P : Task → Type 0) (rows : Rows) → All P rows → All P (sort_rows rows)
unfolding sort_rows
All-sort_rows P [] ps = tt
All-sort_rows P (task ∷ rows) (p, ps) =
    All-insert_row P task (sort_rows rows) p (All-sort_rows P rows ps)

All-of-insert_row :
    (P : Task → Type 0) (task : Task) (rows : Rows)
    → All P (insert_row task rows)
    → P task × All P rows
unfolding insert_row
All-of-insert_row P task [] ps = ps
All-of-insert_row P task (row ∷ rows) ps = elim (Bool-cases (newer task row)) [
  | inl first ↦ rw (first) at ps
  | inr later ↦
      let (q, rest) = rw (later) at ps in
      let (p, qs) = All-of-insert_row P task rows rest in (p, (q, qs))
]

-- What holds of all the sorted rows holds of all rows.
pub All-of-sort_rows : (P : Task → Type 0) (rows : Rows) → All P (sort_rows rows) → All P rows
unfolding sort_rows
All-of-sort_rows P [] ps = tt
All-of-sort_rows P (task ∷ rows) ps =
    let (p, rest) = All-of-insert_row P task (sort_rows rows) ps in
    (p, All-of-sort_rows P rows rest)

insert_row-IsSorted : (task : Task) (rows : Rows) → IsSorted rows → IsSorted (insert_row task rows)
unfolding insert_row
insert_row-IsSorted task [] d = (tt, tt)
insert_row-IsSorted task (row ∷ rows) (below, d) = elim (Bool-cases (newer task row)) [
  | inl first ↦ rw first (
    (
      first,
      All-mono (λ u. newer row u ≡ true) (λ u. newer task u ≡ true)
          (λ u h. newer_trans task row u first h) rows below,
    ),
    (below, d),
  )
  | inr later ↦ rw later (
    All-insert_row (λ u. newer row u ≡ true) task rows (newer_total task row later) below,
    insert_row-IsSorted task rows d,
  )
]

pub sort_rows-IsSorted : (rows : Rows) → IsSorted (sort_rows rows)
unfolding sort_rows
sort_rows-IsSorted [] = tt
sort_rows-IsSorted (task ∷ rows) =
    insert_row-IsSorted task (sort_rows rows) (sort_rows-IsSorted rows)
