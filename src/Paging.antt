-- ===== src/Paging.antt =====
-- src/paging/mod.rs, and the page that the lists of src/topics/topic_actor.rs and of the managers
-- cut out of a sorted list. A size and an offset are machine words far from their end.
pub mod Order
pub mod Pages
use deltio.Prelude.{
  List, Option, drop, if◌then◌else◌, is_empty, length, ltb, min, none, some, take, ℕ, ◌+◌, ◌==◌,
  nat_eq,
}

pub record Paging : Type 0 where
  pub page_size : ℕ
  pub offset : Option ℕ

abbrev pub new_paging : ℕ → Option ℕ → Paging
new_paging size offset = record {
  page_size = if size == 0 then 20 else if ltb 1000 size then 1000 else size;
  offset = offset;
}

abbrev pub start_paging : ℕ → Paging
start_paging size = record { page_size = size; offset = none }

abbrev pub size : Paging → ℕ
size p = min p.page_size 10_000

abbrev skip_of : Option ℕ → ℕ
skip_of none = 0
skip_of (some n) = n

abbrev pub to_skip : Paging → ℕ
to_skip p = skip_of p.offset

abbrev pub next_page : Paging → Option ℕ → Paging
next_page p new_offset = record p { offset = new_offset }

module _ {ℓ} {A : Type ℓ} where
  pub next_page_from_slice_result : Paging → List A → Paging
  next_page_from_slice_result p result =
      next_page p (if is_empty result then none else some (to_skip p + length result))

  -- The page of a sorted list, and the paging of the next one.
  unfoldable pub list_page : Paging → List A → List A × Paging
  unfolding next_page_from_slice_result
  list_page p items =
      let page = take (size p) (drop (to_skip p) items) in
      (page, next_page_from_slice_result p page)
