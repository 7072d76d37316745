-- ===== src/Pmm/Zones.antt =====
-- The free lists of kernel/mm/pmm.c as lists of pages: what allocation and release do to them.
use lumin.Prelude.{
  ℕ, ◌+◌, ◌-◌, ◌%◌, ◌≤◌, ◌<◌, ◌≡◌, refl, ◌≢◌, false, List, [], ◌∷◌, arith, ltb, if◌then◌else◌,
  update, has, All, length, Bool-cases, inl, inr, ne→==,
}
use lumin.Pmm.{
  Pmm, Zone, dma, dma32, normal, head, set_head, page_free_internal, zone_alloc, or_zone, alloc_any,
  dma_zone_limit, dma32_zone_limit, u64_mod,
}

-- From `p` the next words lead through the distinct pages `xs` to NULL.
abbrev pub Chain : (ℕ → ℕ) → ℕ → List ℕ → Type 0
Chain mem p [] = p ≡ 0
Chain mem p (x ∷ xs) = (p ≡ x) × (x ≢ 0) × (has x xs ≡ false) × Chain mem (mem x) xs

-- The addresses that `page_free_internal` puts on the list of a zone.
abbrev pub InZone : Zone → ℕ → Type 0
InZone dma a = a < dma_zone_limit
InZone dma32 a = (dma_zone_limit ≤ a) × (a < dma32_zone_limit)
InZone normal a = dma32_zone_limit ≤ a

-- The pages of each list, first to last.
pub record Pages : Type 0 where
  pub dma_pages : List ℕ
  pub dma32_pages : List ℕ
  pub normal_pages : List ℕ

abbrev pub count : Pages → ℕ
count l = length l.dma_pages + length l.dma32_pages + length l.normal_pages

-- The lists hold these pages, each in its zone, and `free_pages_total` is lower than their number by
-- `debt`, as a 64-bit number.
pub record HoldsWith (debt : ℕ) (l : Pages) (s : Pmm) : Type 0 where
  pub dma_chain : Chain s.mem s.dma_free_list l.dma_pages
  pub dma32_chain : Chain s.mem s.dma32_free_list l.dma32_pages
  pub normal_chain : Chain s.mem s.normal_free_list l.normal_pages
  pub dma_zone : All (InZone dma) l.dma_pages
  pub dma32_zone : All (InZone dma32) l.dma32_pages
  pub normal_zone : All (InZone normal) l.normal_pages
  pub counted : (s.free_pages_total + debt) % u64_mod ≡ count l
  pub in_range : s.free_pages_total < u64_mod

-- With no debt: `free_pages_total` is the number of the pages.
abbrev pub Holds : Pages → Pmm → Type 0
Holds = HoldsWith 0

abbrev pub pages : List ℕ → List ℕ → List ℕ → Pages
pages ds ms ns = record { dma_pages = ds; dma32_pages = ms; normal_pages = ns }

-- The abstract allocator: the page handed out (0 for none), and those that stay.
abbrev pub take_first : List ℕ → List ℕ → List ℕ → ℕ × Pages
take_first ds ms (x ∷ ns) = (x, pages ds ms ns)
take_first ds (x ∷ ms) [] = (x, pages ds ms [])
take_first (x ∷ ds) [] [] = (x, pages ds [] [])
take_first [] [] [] = (0, pages [] [] [])

-- The page `a` goes to the front of its zone's list.
abbrev pub put : ℕ → Pages → Pages
put a l =
    if ltb a dma32_zone_limit
    then if ltb a dma_zone_limit
      then record l { dma_pages = a ∷ l.dma_pages }
      else record l { dma32_pages = a ∷ l.dma32_pages }
    else record l { normal_pages = a ∷ l.normal_pages }

-- The page stands in no list.
abbrev pub IsAbsent : ℕ → Pages → Type 0
IsAbsent a l =
    (has a l.dma_pages ≡ false) × (has a l.dma32_pages ≡ false) × (has a l.normal_pages ≡ false)

-- A write to a page off the list leaves the list alone.
pub Chain-update :
    (mem : ℕ → ℕ) (p a v : ℕ) (xs : List ℕ)
    → has a xs ≡ false
    → Chain mem p xs
    → Chain (update mem a v) p xs
Chain-update mem p a v [] out c = c
Chain-update mem p a v (x ∷ xs) out (e, ne, fresh, c) =
    (e, ne, fresh, ground (arith, Chain-update mem (mem x) a v xs))

-- A new page in front.
pub Chain-push :
    (mem : ℕ → ℕ) (p a : ℕ) (xs : List ℕ)
    → a ≢ 0
    → has a xs ≡ false
    → Chain mem p xs
    → Chain (update mem a p) a (a ∷ xs)
Chain-push mem p a xs ne out c = (refl, ne, out, ground (arith, Chain-update mem p a p xs out c))

head-eq_zero : (mem : ℕ → ℕ) (p : ℕ) (xs : List ℕ) → Chain mem p xs → p ≡ 0 → xs ≡ []
head-eq_zero mem p [] c e = refl
head-eq_zero mem p (x ∷ xs) (q, ne, fresh, c) e = absurd (ne (omega arith))

-- `page_free_internal` puts a page that is on no list at the front of its zone's list.
pub page_free_internal_lem :
    (a : ℕ) {debt : ℕ} {l : Pages} {s : Pmm}
    → a ≢ 0
    → IsAbsent a l
    → count l + 1 < u64_mod
    → HoldsWith debt l s
    → HoldsWith debt (put a l) (page_free_internal a s)
unfolding page_free_internal
page_free_internal_lem a {l} {s} ne (out, out32, out_normal) room h =
    elim (Bool-cases (ltb a dma32_zone_limit)) [
      | inl low ↦ elim (Bool-cases (ltb a dma_zone_limit)) [
        | inl lowest ↦
            rw (low, lowest)
              (record {
                dma_chain = Chain-push s.mem s.dma_free_list a l.dma_pages ne out h.dma_chain;
                dma32_chain =
                    Chain-update s.mem s.dma32_free_list a _ l.dma32_pages out32 h.dma32_chain;
                normal_chain =
                    Chain-update s.mem s.normal_free_list a _ l.normal_pages out_normal
                      h.normal_chain;
                dma_zone = (ground arith, h.dma_zone);
                counted = omega arith;
                in_range = omega arith;
                dma32_zone = h.dma32_zone;
                normal_zone = h.normal_zone;
              })
        | inr high ↦
            rw (low, high)
              (record {
                dma_chain = Chain-update s.mem s.dma_free_list a _ l.dma_pages out h.dma_chain;
                dma32_chain =
                    Chain-push s.mem s.dma32_free_list a l.dma32_pages ne out32 h.dma32_chain;
                normal_chain =
                    Chain-update s.mem s.normal_free_list a _ l.normal_pages out_normal
                      h.normal_chain;
                dma32_zone = ((ground arith, ground arith), h.dma32_zone);
                counted = omega arith;
                in_range = omega arith;
                dma_zone = h.dma_zone;
                normal_zone = h.normal_zone;
              })
      ]
      | inr high ↦ rw high (record {
        dma_chain = Chain-update s.mem s.dma_free_list a _ l.dma_pages out h.dma_chain;
        dma32_chain = Chain-update s.mem s.dma32_free_list a _ l.dma32_pages out32 h.dma32_chain;
        normal_chain =
            Chain-push s.mem s.normal_free_list a l.normal_pages ne out_normal h.normal_chain;
        normal_zone = (ground arith, h.normal_zone);
        counted = omega arith;
        in_range = omega arith;
        dma_zone = h.dma_zone;
        dma32_zone = h.dma32_zone;
      })
    ]

pub zone_alloc-empty : (z : Zone) (s : Pmm) → head z s ≡ 0 → zone_alloc z s ≡ (0, s)
unfolding zone_alloc
zone_alloc-empty z s e = rw e

abbrev pub unlink : Zone → Pmm → Pmm
unlink z s = record (set_head z (s.mem (head z s)) s) {
  free_pages_total = (s.free_pages_total + u64_mod - 1) % u64_mod;
}

pub zone_alloc-page :
    (z : Zone) (s : Pmm) (x : ℕ) → head z s ≡ x → x ≢ 0 → zone_alloc z s ≡ (x, unlink z s)
unfolding zone_alloc
zone_alloc-page z s x e ne = rw (e, ne→== x 0 ne)

abbrev pub Taken : ℕ → List ℕ → List ℕ → List ℕ → Pmm → ℕ × Pmm → Type 0
Taken debt ds ms ns s r =
    (r.0 ≡ (take_first ds ms ns).0)
    × HoldsWith debt (take_first ds ms ns).1 r.1
    × (r.1.pmm_lock ≡ s.pmm_lock)

-- `pmm_alloc` without its lock: the first page of the highest zone that has one.
pub alloc_any_lem :
    (ds ms ns : List ℕ) {debt : ℕ} {s : Pmm}
    → HoldsWith debt (pages ds ms ns) s
    → Taken debt ds ms ns s (alloc_any s)
unfolding alloc_any or_zone
alloc_any_lem ds ms (x ∷ ns) {s} h =
    let (e, ne, fresh, c) = h.normal_chain in
    rw (zone_alloc-page normal s x e ne, ne→== x 0 ne, ne→== x 0 ne)
      (
        refl,
        record {
          dma_chain = h.dma_chain;
          dma32_chain = h.dma32_chain;
          normal_chain = rw e c;
          dma_zone = h.dma_zone;
          dma32_zone = h.dma32_zone;
          normal_zone = h.normal_zone.1;
          counted = omega arith;
          in_range = omega arith;
        },
        refl,
      )
alloc_any_lem ds (x ∷ ms) [] {s} h =
    let (e, ne, fresh, c) = h.dma32_chain in
    rw (zone_alloc-empty normal s h.normal_chain, zone_alloc-page dma32 s x e ne, ne→== x 0 ne)
      (
        refl,
        record {
          dma_chain = h.dma_chain;
          dma32_chain = rw e c;
          normal_chain = h.normal_chain;
          dma_zone = h.dma_zone;
          dma32_zone = h.dma32_zone.1;
          normal_zone = tt;
          counted = omega arith;
          in_range = omega arith;
        },
        refl,
      )
alloc_any_lem (x ∷ ds) [] [] {s} h =
    let (e, ne, fresh, c) = h.dma_chain in
    rw
      (
        zone_alloc-empty normal s h.normal_chain,
        zone_alloc-empty dma32 s h.dma32_chain,
        zone_alloc-page dma s x e ne,
      )
      (
        refl,
        record {
          dma_chain = rw e c;
          dma32_chain = h.dma32_chain;
          normal_chain = h.normal_chain;
          dma_zone = h.dma_zone.1;
          dma32_zone = tt;
          normal_zone = tt;
          counted = omega arith;
          in_range = omega arith;
        },
        refl,
      )
alloc_any_lem [] [] [] {s} h =
    rw
      (
        zone_alloc-empty normal s h.normal_chain,
        zone_alloc-empty dma32 s h.dma32_chain,
        zone_alloc-empty dma s h.dma_chain,
      )
      (refl, h, refl)
