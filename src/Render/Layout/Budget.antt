-- ===== src/Render/Layout/Budget.antt =====
-- `_distribute` of src/labelfab/render/layout.py: what the sizes add up to.
use labelfab.Common.{
  ℕ, zero, suc, ◌+◌, ◌-◌, ◌≤◌, ◌<◌, ◌≡◌, refl, ap, sym, subst, ◌∙◌, min, List, [], ◌∷◌, length, ltb,
  ◌==◌, ℤ, pos, negsuc, int_sub, int_minus, to_nat, if◌then◌else◌, arith, Bool-cases, inl, inr,
}
use labelfab.Render.Layout.{
  sum, widest, grow, add_at, enlarge, reduce, squeeze, excess, share_out, distribute, elastic_of,
  shrink_flex, shrink_all,
}
use labelfab.Render.Layout.Shares.{
  NoLarger, NoLarger-refl, NoLarger-trans, shares, shares-sum_le, shares-sum_ge, sum-grow,
  grow-NoLarger, add_at-NoLarger, sum-add_at, widest_from_lt, elastics, sum-elastics,
  shrink_flex-NoLarger, sum-shrink_flex, shrink_all-NoLarger, sum-shrink_all, sum-shrink_all_more,
}

length-NoLarger : (ms ns : List ℕ) → NoLarger ms ns → length ms ≡ length ns
length-NoLarger [] [] h = refl
length-NoLarger [] (n ∷ ns) h = elim h [ ]
length-NoLarger (m ∷ ms) [] h = elim h [ ]
length-NoLarger (m ∷ ms) (n ∷ ns) h = ap suc (length-NoLarger ms ns h.1)

widest_lt : (fs : List ℕ) → 0 < sum fs → widest fs < length fs
unfolding sum
widest_lt [] h = absurd (omega arith)
widest_lt (f ∷ fs) h = omega (arith, widest_from_lt 0 f 1 fs (omega arith))

int_sub-pos : (a b : ℕ) → b ≤ a → int_sub a b ≡ pos (a - b)
int_sub-pos a b h = ground arith

enlarge-sum :
    (ns fs : List ℕ) (k b : ℕ)
    → length ns ≡ length fs
    → sum ns + k ≡ b
    → 0 < sum fs
    → (sum (enlarge ns fs k b) ≡ b) × NoLarger ns (enlarge ns fs k b)
enlarge-sum ns fs k b same whole some_flex =
    let t = sum fs in
    let grown = grow k t ns fs in
    let kept = grow-NoLarger k t ns fs in
    let inside : widest fs < length grown =
      omega (arith, widest_lt fs some_flex, length-NoLarger ns grown kept) in
    let all = sum-add_at (widest fs) (b - sum grown) grown inside in
    let upper = shares-sum_le k fs some_flex in
    let total = sum-grow k t ns fs same in
    let grows =
      NoLarger-trans ns grown _ kept (add_at-NoLarger (widest fs) (b - sum grown) grown) in
    let branch : enlarge ns fs k b ≡ add_at (widest fs) (b - sum grown) grown = ground arith in
    (
      ap sum branch ∙ omega (arith, all, upper, total),
      subst (λ ms. NoLarger ns ms) (sym branch) grows,
    )

surplus :
    (ns fs : List ℕ) (k b : ℕ)
    → length ns ≡ length fs
    → sum ns + k ≡ b
    → 0 < sum fs
    → (sum (share_out ns fs (pos k) (pos b)) ≡ b) × NoLarger ns (share_out ns fs (pos k) (pos b))
surplus ns fs zero b same whole some_flex = (omega arith, NoLarger-refl ns)
surplus ns fs (suc k) b same whole some_flex = enlarge-sum ns fs (suc k) b same whole some_flex

-- When the children fit the room and one of them has a weight, the room is used up to the pixel and
-- no child gets less than its natural size.
pub distribute-surplus :
    (ns fs : List ℕ) (b : ℕ)
    → length ns ≡ length fs
    → sum ns ≤ b
    → 0 < sum fs
    → (sum (distribute ns fs (pos b)) ≡ b) × NoLarger ns (distribute ns fs (pos b))
unfolding distribute
distribute-surplus ns fs b same fits some_flex =
    let e = int_sub-pos b (sum ns) fits in
    rw e (surplus ns fs (b - sum ns) b same (omega arith) some_flex)

-- Shrinking all the children in proportion: no size grows, and what is left is the budget, or a few
-- pixels more, fewer than there are children.
squeeze-sum :
    (ms : List ℕ) (z : ℤ)
    → to_nat z ≤ sum ms
    → 0 < length ms
    → NoLarger (squeeze ms z) ms
      × (to_nat z ≤ sum (squeeze ms z))
      × (sum (squeeze ms z) < to_nat z + length ms)
squeeze-sum ms (pos b) enough some_child = elim (Bool-cases (ltb 0 (sum ms - b))) [
  | inl over ↦
      let t = sum ms in
      let k = t - b in
      let some_size : 0 < t = ground arith in
      let branch : squeeze ms (pos b) ≡ shrink_all k t ms = ground arith in
      let total = sum-shrink_all k t ms (omega arith) in
      let upper = shares-sum_le k ms some_size in
      let lower = shares-sum_ge k ms some_size some_child in
      rw branch
        (shrink_all-NoLarger k t ms, omega (arith, total, upper), omega (arith, total, lower))
  | inr exact ↦
      let branch : squeeze ms (pos b) ≡ ms = ground arith in
      rw branch (NoLarger-refl ms, enough, ground arith)
]
squeeze-sum ms (negsuc n) enough some_child =
    let t = if sum ms == 0 then 1 else sum ms in
    let k = sum ms + suc n in
    let branch : squeeze ms (negsuc n) ≡ shrink_all k t ms = ground arith in
    let none_left = sum-shrink_all_more k t ms (ground arith) (ground arith) in
    rw branch (shrink_all-NoLarger k t ms, omega arith, omega (arith, none_left))

-- The sizes after the children with a weight have given what they can.
taken-sum :
    (ns fs : List ℕ) (k : ℕ)
    → let e = elastic_of ns fs in
      let ms = if ltb 0 e then shrink_flex (min k e) e ns fs else ns in
      NoLarger ms ns × (sum ns ≤ sum ms + k)
taken-sum ns fs k = elim (Bool-cases (ltb 0 (elastic_of ns fs))) [
  | inl some_flex ↦
      let e = elastic_of ns fs in
      let all = sum-elastics ns fs in
      let total = sum-shrink_flex (min k e) e ns fs (omega arith) in
      let upper : shares (min k e) e (elastics ns fs) ≤ min k e =
        subst (λ t. shares (min k e) t (elastics ns fs) ≤ min k e) all
          (shares-sum_le (min k e) (elastics ns fs) (ground arith)) in
      rw some_flex (shrink_flex-NoLarger (min k e) e ns fs, omega (arith, total, upper))
  | inr no_flex ↦ rw no_flex (NoLarger-refl ns, omega arith)
]

-- What a deficit comes to.
abbrev pub Shared : List ℕ → ℤ → List ℕ → Type 0
Shared ns budget ms =
    NoLarger ms ns × (to_nat budget ≤ sum ms) × (sum ms < to_nat budget + length ns)

reduce-Shared :
    (ns fs : List ℕ) (k : ℕ) (z : ℤ)
    → to_nat z ≤ sum ns - k
    → 0 < length ns
    → Shared ns z (reduce ns fs k z)
reduce-Shared ns fs k z short some_child =
    let e = elastic_of ns fs in
    let ms = if ltb 0 e then shrink_flex (min k e) e ns fs else ns in
    let (smaller, given) = taken-sum ns fs k in
    let same = length-NoLarger ms ns smaller in
    let (less, low, high) = squeeze-sum ms z (omega (arith, given)) (omega (arith, same)) in
    (NoLarger-trans (squeeze ms z) ms ns less smaller, low, omega (arith, high, same))

int_sub-negsuc : (a b : ℕ) → a < b → int_sub a b ≡ negsuc (b - a - 1)
int_sub-negsuc a b h = ground arith

-- When the children need more than the room, none gets more than its natural size, the room is used
-- up, and at most a pixel less than there are children is given beyond it.
pub distribute-deficit :
    (ns fs : List ℕ) (budget : ℤ)
    → 0 < excess (sum ns) budget
    → 0 < length ns
    → Shared ns budget (distribute ns fs budget)
unfolding distribute
distribute-deficit ns fs (pos b) short some_child =
    let e = int_sub-negsuc b (sum ns) (omega (arith, short)) in
    rw e (reduce-Shared ns fs (suc (sum ns - b - 1)) (pos b) (omega (arith, short)) some_child)
distribute-deficit ns fs (negsuc n) short some_child =
    reduce-Shared ns fs (suc (n + sum ns)) (negsuc n) (omega arith) some_child

-- No room at all leaves no child anything.
pub distribute-no_room : (ns fs : List ℕ) (n : ℕ) → sum (distribute ns fs (negsuc n)) ≡ 0
unfolding distribute
distribute-no_room ns fs n =
    let e = elastic_of ns fs in
    let k = suc (n + sum ns) in
    let ms = if ltb 0 e then shrink_flex (min k e) e ns fs else ns in
    let t = if sum ms == 0 then 1 else sum ms in
    let branch : squeeze ms (negsuc n) ≡ shrink_all (sum ms + suc n) t ms = ground arith in
    ap sum branch ∙ sum-shrink_all_more (sum ms + suc n) t ms (ground arith) (ground arith)

-- How far the sizes may go beyond the room.
abbrev pub slack : List ℕ → ℤ → ℕ
slack ns budget = if ltb 0 (excess (sum ns) budget) then length ns - 1 else 0

unweighted : (ns fs : List ℕ) (k b : ℕ) → sum fs ≡ 0 → share_out ns fs (pos k) (pos b) ≡ ns
unweighted ns fs zero b no_flex = refl
unweighted ns fs (suc k) b no_flex = ground arith

length-enlarge : (ns fs : List ℕ) (k b : ℕ) → length (enlarge ns fs k b) ≡ length ns
length-enlarge ns fs k b =
    let grown = grow k (sum fs) ns fs in
    let kept = length-NoLarger ns grown (grow-NoLarger k (sum fs) ns fs) in
    let rest = length-NoLarger grown _ (add_at-NoLarger (widest fs) (b - sum grown) grown) in
    elim (Bool-cases (sum fs == 0)) [
      | inl no_flex ↦ rw no_flex refl
      | inr some_flex ↦ rw some_flex (omega (arith, kept, rest))
    ]

length-squeeze : (ns : List ℕ) (z : ℤ) → length (squeeze ns z) ≡ length ns
length-squeeze ns z =
    let k = excess (sum ns) z in
    let t = if sum ns == 0 then 1 else sum ns in
    let less = length-NoLarger (shrink_all k t ns) ns (shrink_all-NoLarger k t ns) in
    elim (Bool-cases (ltb 0 k)) [ inl over ↦ rw over less | inr exact ↦ rw exact refl ]

length-share_out : (ns fs : List ℕ) (y z : ℤ) → length (share_out ns fs y z) ≡ length ns
length-share_out ns fs (pos zero) z = refl
length-share_out ns fs (pos (suc k)) z = length-enlarge ns fs (suc k) (to_nat z)
length-share_out ns fs (negsuc k) z =
    let e = elastic_of ns fs in
    let ms = if ltb 0 e then shrink_flex (min (suc k) e) e ns fs else ns in
    length-squeeze ms z ∙ length-NoLarger ms ns (taken-sum ns fs (suc k)).0

pub length-distribute : (ns fs : List ℕ) (z : ℤ) → length (distribute ns fs z) ≡ length ns
unfolding distribute
length-distribute ns fs z = length-share_out ns fs (int_minus z (sum ns)) z

needs_child : (ns : List ℕ) → 0 < sum ns → 0 < length ns
unfolding sum
needs_child [] h = absurd (omega arith)
needs_child (n ∷ ns) h = omega arith

pub distribute-within :
    (ns fs : List ℕ) (b : ℕ)
    → length ns ≡ length fs
    → sum (distribute ns fs (pos b)) ≤ b + slack ns (pos b)
unfolding distribute
distribute-within ns fs b same = elim (Bool-cases (ltb 0 (sum ns - b))) [
  | inl short ↦
      let some_child : 0 < length ns = needs_child ns (ground arith) in
      let (_, _, high) = distribute-deficit ns fs (pos b) (ground arith) some_child in
      rw short (omega (arith, high))
  | inr fits ↦ elim (Bool-cases (sum fs == 0)) [
    | inl no_flex ↦
        let e = int_sub-pos b (sum ns) (ground arith) in
        let keep = unweighted ns fs (b - sum ns) b (ground arith) in
        let kept : sum (distribute ns fs (pos b)) ≡ sum ns = rw e (ap sum keep) in
        rw fits (ground (arith, kept))
    | inr some_flex ↦
        let (whole, _) = distribute-surplus ns fs b same (ground arith) (ground arith) in
        rw fits (omega (arith, whole))
  ]
]
