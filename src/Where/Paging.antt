-- ===== src/Where/Paging.antt =====
-- store/where/where.go: offsets, limits and pages.
use linhub.Base.{
  arith, false, int64, leb_ℤ, ltb_ℤ, pos, refl, suc, sym, true, ℕ, ℤ, ◌*ℤ◌, ◌*◌, ◌+◌, ◌-ℤ◌, ◌/◌,
  ◌<◌, ◌^◌, ◌∙◌, ◌≡◌, ◌≤◌,
}
use linhub.Where.{
  Options, clamp_limit, set_limit, set_offset, set_page, with_limit, with_offset, with_page,
}
use linhub.Where.Apply.{Call, where_}
use native.Mathlib.Nat.{div-mul-le_self, lt-div-mul-add}

-- The chained methods and the functional options do the same, for every page, size and number.
chained_methods_agree :
    (page size n : ℤ) (o : Options)
    → (set_page page size o ≡ with_page page size o)
      × (set_offset n o ≡ with_offset n o)
      × (set_limit n o ≡ with_limit n o)
unfolding set_page with_page set_offset with_offset set_limit with_limit
chained_methods_agree page size n o =
    let same_test : ltb_ℤ page (pos 1) ≡ leb_ℤ page (pos 0) = ground arith in
    (rw same_test refl, refl, refl)

int64_small : (n : ℕ) → n < 2 ^ 63 → int64 (pos n) ≡ pos n
int64_small n h = ground arith

page_start :
    (q size : ℕ)
    → q < 2 ^ 63
    → q * size < 2 ^ 63
    → int64 (int64 (pos (q + 1) -ℤ pos 1) *ℤ pos size) ≡ pos (q * size)
page_start q size small fits =
    let back : pos (q + 1) -ℤ pos 1 ≡ pos q = ground arith in
    let times : pos q *ℤ pos size ≡ pos (q * size) = ground arith in
    rw (back, int64_small q small, times) (int64_small (q * size) fits)

-- For a positive page size, the size and the index n being below 2 ^ 63, the page n / size + 1
-- covers the index: its offset is at most n, its limit is the size, and n is below their sum.
pub set_page_covers :
    (n size : ℕ) (o : Options)
    → 0 < size
    → n < 2 ^ 63
    → size < 2 ^ 63
    → (first : ℕ) × ((set_page (pos (n / size + 1)) (pos size) o).offset ≡ pos first)
      × ((set_page (pos (n / size + 1)) (pos size) o).limit ≡ pos size)
      × (first ≤ n)
      × (n < first + size)
unfolding set_page
set_page_covers n size o pos_size small_n small_size =
    let below = div-mul-le_self n size in
    let lim : clamp_limit (pos size) ≡ pos size = ground arith in
    let page_ok : ltb_ℤ (pos (n / size + 1)) (pos 1) ≡ false = ground arith in
    let q_small : n / size < 2 ^ 63 = grind arith in
    (
      n / size * size,
      rw (page_ok, lim) (page_start (n / size) size q_small (omega arith)),
      lim,
      below,
      lt-div-mul-add pos_size,
    )

where-offset :
    {Db : Type 0} (step : Call → Db → Db) (o : Options) (db : Db)
    → ltb_ℤ (pos 0) o.offset ≡ false
    → where_ step o db ≡ where_ step (record o { offset = pos 0 }) db
unfolding where_
where-offset step o db h = rw h refl

offset_without_size :
    (k : ℕ) (size : ℤ) (o : Options)
    → k < 2 ^ 63
    → leb_ℤ size (pos 0) ≡ true
    → ltb_ℤ (pos 0) (set_page (pos (suc k)) size o).offset ≡ false
unfolding set_page
offset_without_size k size o small h = rw h (ground arith)

-- When the page size is not positive the page number has no effect: every page from 1 to 2 ^ 63
-- makes the same calls on a handle as the first one.
set_page_without_size :
    {Db : Type 0} (step : Call → Db → Db) (k : ℕ) (size : ℤ) (o : Options) (db : Db)
    → k < 2 ^ 63
    → leb_ℤ size (pos 0) ≡ true
    → where_ step (set_page (pos (suc k)) size o) db ≡ where_ step (set_page (pos 1) size o) db
unfolding set_page
set_page_without_size step k size o db small none_left =
    where-offset step (set_page (pos (suc k)) size o) db
      (offset_without_size k size o small none_left)
    ∙ sym (
        where-offset step (set_page (pos 1) size o) db
          (offset_without_size 0 size o (omega arith) none_left))
