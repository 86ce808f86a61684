-- ===== src/Policy/Members.antt =====
-- What the walk of one member, or of every item, leaves behind.
use asterism_astools.Prelude.{ℕ, zero, suc, ◌≡◌, refl, ap, ◌≢◌}
use asterism_astools.Prelude.{Option, none, some, ◌∷◌}
use asterism_astools.Prelude.{Result, ok, bind-eq-ok}
use asterism_astools.Policy.Preflight.{
  Node, Items, no_items, item, Members, no_members, member, keys, walk_items, walk_values,
  walk_member,
}

unfoldable pub member_at : Members → ℕ → Option Node
member_at no_members i = none
member_at (member k n ms) zero = some n
member_at (member k n ms) (suc i) = member_at ms i

module _ (P : Node → Type 0) where
  unfoldable pub AllItems : Items → Type 0
  AllItems no_items = Unit {0}
  AllItems (item n ns) = P n × AllItems ns

  unfoldable pub AllValues : Members → Type 0
  AllValues no_members = Unit {0}
  AllValues (member k n ms) = P n × AllValues ms

  module _ (f : Node → Result Node) (keep : (n n' : Node) → f n ≡ ok n' → P n') where
    pub walk_items-AllItems : (ns : Items) {ns' : Items} → walk_items f ns ≡ ok ns' → AllItems ns'
    unfolding walk_items AllItems
    walk_items-AllItems no_items {ns'} e = let same : no_items ≡ ns' = cc in rw (← same) tt
    walk_items-AllItems (item n ns) {ns'} e =
        let (n', first, rest) = bind-eq-ok (f n) _ e in
        let (more, later, last) = bind-eq-ok (walk_items f ns) _ rest in
        let same : item n' more ≡ ns' = cc in
        rw (← same) ((keep n n' first, walk_items-AllItems ns later))

    pub walk_values-AllValues :
        (ms : Members) {ms' : Members} → walk_values f ms ≡ ok ms' → AllValues ms'
    unfolding walk_values AllValues
    walk_values-AllValues no_members {ms'} e = let same : no_members ≡ ms' = cc in rw (← same) tt
    walk_values-AllValues (member k n ms) {ms'} e =
        let (n', first, rest) = bind-eq-ok (f n) _ e in
        let (more, later, last) = bind-eq-ok (walk_values f ms) _ rest in
        let same : member k n' more ≡ ms' = cc in
        rw (← same) ((keep n n' first, walk_values-AllValues ms later))

-- What `walk_member` changes: one value, and no key.
pub record IsWalked (i : ℕ) (f : Node → Result Node) (ms ms' : Members) : Type 0 where
  pub same_keys : keys ms' ≡ keys ms
  pub others : (j : ℕ) → i ≢ j → member_at ms' j ≡ member_at ms j
  pub walked : (n : Node) → member_at ms' i ≡ some n → (n0 : Node) × (f n0 ≡ ok n)

pub walk_member-IsWalked :
    (i : ℕ) (f : Node → Result Node) (ms : Members) {ms' : Members}
    → walk_member i f ms ≡ ok ms'
    → IsWalked i f ms ms'
unfolding walk_member keys member_at
walk_member-IsWalked i f no_members {ms'} e =
    let same : no_members ≡ ms' = cc in
    rw (← same) (record { same_keys = refl; others = λ j h. refl; walked = λ n h. cc })
walk_member-IsWalked zero f (member k n ms) {ms'} e =
    let (n', first, last) = bind-eq-ok (f n) _ e in
    let same : member k n' ms ≡ ms' = cc in
    rw (← same) (record {
      same_keys = refl;
      others = elim [ zero ↦ λ h. absurd (h refl) | suc j ↦ λ h. refl ];
      walked = λ m h. (n, cc);
    })
walk_member-IsWalked (suc i) f (member k n ms) {ms'} e =
    let (more, first, last) = bind-eq-ok (walk_member i f ms) _ e in
    let w = walk_member-IsWalked i f ms first in
    let same : member k n more ≡ ms' = cc in
    rw (← same) (record {
      same_keys = ap (λ ks. k ∷ ks) w.same_keys;
      others = elim [ zero ↦ λ h. refl | suc j ↦ λ h. w.others j (λ p. h (ap suc p)) ];
      walked = λ m h. w.walked m (h);
    })
