-- ===== src/Net/Ram.antt =====
-- Descriptors in memory: what a store and the loops of drivers/mac_support.c leave there.
use tina.Base.{
  ℕ, zero, suc, ◌+◌, ◌*◌, ◌%◌, ◌^◌, ◌≤◌, ◌<◌, ◌≡◌, ◌≢◌, ◌⊎◌, inl, refl, subst, ◌∙◌, arith,
  ℕ_discrete,
}
use tina.Net.{Board, Desc, store_desc, desc_loop}

-- The address of a word between `lo` and `hi`.
pub record IsPlace (lo hi at : ℕ) : Type 0 where
  pub above : lo ≤ at
  pub below : at < hi
  pub aligned : at % 4 ≡ 0

-- The words between `lo` and `hi` are memory: a load gives what was last stored there.
pub record IsRam {S : Type 0} (B : Board S) (lo hi : ℕ) : Type 0 where
  pub same : (s : S) (at v : ℕ) → IsPlace lo hi at → v < 2 ^ 32 → (B.load (B.store s at v) at).0 ≡ v
  pub other :
      (s : S) (at v b : ℕ)
      → IsPlace lo hi at
      → IsPlace lo hi b
      → at ≢ b
      → (B.load (B.store s at v) b).0 ≡ (B.load s b).0

-- Memory has the descriptor `d` at `at`.
pub record Holds {S : Type 0} (B : Board S) (s : S) (at : ℕ) (d : Desc) : Type 0 where
  pub tdes0 : (B.load s at).0 ≡ d.tdes0
  pub tdes1 : (B.load s (at + 4)).0 ≡ d.tdes1
  pub tdes2 : (B.load s (at + 8)).0 ≡ d.tdes2
  pub tdes3 : (B.load s (at + 12)).0 ≡ d.tdes3

pub record IsDesc (d : Desc) : Type 0 where
  pub tdes0 : d.tdes0 < 2 ^ 32
  pub tdes1 : d.tdes1 < 2 ^ 32
  pub tdes2 : d.tdes2 < 2 ^ 32
  pub tdes3 : d.tdes3 < 2 ^ 32

module _ {S : Type 0} (B : Board S) {lo hi : ℕ} (M : IsRam B lo hi) where
  place :
      {at : ℕ} → lo ≤ at → at + 16 ≤ hi → at % 4 ≡ 0 → (k : ℕ) → k < 4 → IsPlace lo hi (at + 4 * k)
  place {at} l h a k b = record {
    above = omega (arith, l);
    below = omega (arith, h, b);
    aligned = omega (arith, a);
  }

  store_desc-other :
      (s : S) {at b : ℕ} (d : Desc)
      → lo ≤ at
      → at + 16 ≤ hi
      → at % 4 ≡ 0
      → IsPlace lo hi b
      → (b < at) ⊎ (at + 16 ≤ b)
      → (B.load (store_desc B s at d) b).0 ≡ (B.load s b).0
  unfolding store_desc
  store_desc-other s {at} {b} d l h a pb out =
      M.other _ (at + 12) d.tdes3 b (place l h a 3 (omega arith)) pb (ground (arith, out))
      ∙ M.other _ (at + 4) d.tdes1 b (place l h a 1 (omega arith)) pb (ground (arith, out))
      ∙ M.other _ (at + 8) d.tdes2 b (place l h a 2 (omega arith)) pb (ground (arith, out))
      ∙ M.other s at d.tdes0 b (record { above = l; below = omega arith; aligned = a }) pb
          (ground (arith, out))

  store_desc-Holds :
      (s : S) {at : ℕ} (d : Desc)
      → lo ≤ at
      → at + 16 ≤ hi
      → at % 4 ≡ 0
      → IsDesc d
      → Holds B (store_desc B s at d) at d
  unfolding store_desc
  store_desc-Holds s {at} d l h a w = record {
    tdes0 =
        M.other _ (at + 12) d.tdes3 at p3 p0 (omega arith)
        ∙ M.other _ (at + 4) d.tdes1 at p1 p0 (omega arith)
        ∙ M.other _ (at + 8) d.tdes2 at p2 p0 (omega arith)
        ∙ M.same s at d.tdes0 p0 w.tdes0;
    tdes1 =
        M.other _ (at + 12) d.tdes3 (at + 4) p3 p1 (omega arith)
        ∙ M.same _ (at + 4) d.tdes1 p1 w.tdes1;
    tdes2 =
        M.other _ (at + 12) d.tdes3 (at + 8) p3 p2 (omega arith)
        ∙ M.other _ (at + 4) d.tdes1 (at + 8) p1 p2 (omega arith)
        ∙ M.same _ (at + 8) d.tdes2 p2 w.tdes2;
    tdes3 = M.same _ (at + 12) d.tdes3 p3 w.tdes3;
  }
    where
      p0 : IsPlace lo hi at
      p0 = record { above = l; below = omega arith; aligned = a }

      p1 : IsPlace lo hi (at + 4)
      p1 = place l h a 1 (omega arith)

      p2 : IsPlace lo hi (at + 8)
      p2 = place l h a 2 (omega arith)

      p3 : IsPlace lo hi (at + 12)
      p3 = place l h a 3 (omega arith)

  pub Holds-kept :
      {s s' : S} {at : ℕ} {d : Desc}
      → lo ≤ at
      → at + 16 ≤ hi
      → at % 4 ≡ 0
      → ((b : ℕ) → IsPlace lo hi b → at ≤ b → b < at + 16 → (B.load s' b).0 ≡ (B.load s b).0)
      → Holds B s at d
      → Holds B s' at d
  Holds-kept {s} {s'} {at} l h a keep d = record {
    tdes0 =
        keep at (record { above = l; below = omega arith; aligned = a }) (omega arith) (omega arith)
        ∙ d.tdes0;
    tdes1 = keep (at + 4) (place l h a 1 (omega arith)) (omega arith) (omega arith) ∙ d.tdes1;
    tdes2 = keep (at + 8) (place l h a 2 (omega arith)) (omega arith) (omega arith) ∙ d.tdes2;
    tdes3 = keep (at + 12) (place l h a 3 (omega arith)) (omega arith) (omega arith) ∙ d.tdes3;
  }

  pub desc_loop-other :
      (left i base : ℕ) (d : ℕ → Desc) (s : S) {b : ℕ}
      → lo ≤ base
      → base + 16 * (i + left) ≤ hi
      → base % 4 ≡ 0
      → IsPlace lo hi b
      → (b < base + 16 * i) ⊎ (base + 16 * (i + left) ≤ b)
      → (B.load (desc_loop B left i base d s) b).0 ≡ (B.load s b).0
  unfolding desc_loop
  desc_loop-other zero i base d s l h a pb out = refl
  desc_loop-other (suc left) i base d s {b} l h a pb out =
      desc_loop-other left (i + 1) base d _ l (omega arith) a pb (ground (arith, out))
      ∙ store_desc-other s (d i) (omega arith) (omega arith) (omega arith) pb (ground (arith, out))

  pub desc_loop-Holds :
      (left i base : ℕ) (d : ℕ → Desc) (s : S)
      → lo ≤ base
      → base + 16 * (i + left) ≤ hi
      → base % 4 ≡ 0
      → ((j : ℕ) → IsDesc (d j))
      → (j : ℕ) → i ≤ j
      → j < i + left
      → Holds B (desc_loop B left i base d s) (base + 16 * j) (d j)
  unfolding desc_loop
  desc_loop-Holds zero i base d s l h a w j lj hj = absurd (omega arith)
  desc_loop-Holds (suc left) i base d s l h a w j lj hj = elim (ℕ_discrete i j) [
    | yes e ↦
        subst
          (λ k.
            Holds B (desc_loop B left (i + 1) base d (store_desc B s (base + 16 * i) (d i)))
              (base + 16 * k) (d k))
          e
          (Holds-kept (omega arith) (omega arith) (omega arith)
            (λ b p lb hb.
              desc_loop-other left (i + 1) base d _ l (omega arith) a p (inl (omega arith)))
            (store_desc-Holds s (d i) (omega arith) (omega arith) (omega arith) (w i)))
    | no ne ↦
        desc_loop-Holds left (i + 1) base d _ l (omega arith) a w j (omega arith) (omega arith)
  ]
