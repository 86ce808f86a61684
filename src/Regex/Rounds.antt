-- ===== src/Regex/Rounds.antt =====
-- A round of the search of std/regex.c, with what holds between the rounds.
use asterism_astools.Prelude.{ℕ, suc, ◌-◌, ◌≤◌, ◌<◌, ◌≡◌, refl, sym, inl, inr}
use asterism_astools.Prelude.{true, false, Option, none, some, List, [], arith}
use asterism_astools.Prelude.{Bool-cases}
use asterism_astools.Prelude.{length, zero_or_suc}
use asterism_astools.Prelude.{Bytes}
use std.Path.{subst}
use asterism_astools.Regex.{
  Inst, Regex, Thread, ri_char, ri_class, ri_any, ri_bol, ri_eol, ri_split, ri_jmp, ri_match,
  is_listed, Best, Added, pruned, is_match, takes, harvest, inject,
}
use asterism_astools.Regex.Runs.{Occurs, Run, begin, eps, Run-bounds, Accepts}
use asterism_astools.Regex.Marks.{Marked, Rising}
use asterism_astools.Regex.Invariant.{Inv, Inv-later}
use asterism_astools.Regex.Settling.{re_add-Inv}
use asterism_astools.Regex.Harvest.{
  Wins, Wins-later, Holds, pruned-Wins, harvest-kept, harvest-Holds, harvest-Wins,
}
use asterism_astools.Regex.Complete.{Complete}

pub is_match-listed : (o : Option Inst) → is_match o ≡ true → is_listed o ≡ true
unfolding is_match is_listed
is_match-listed none e = cc
is_match-listed (some (ri_char ch)) e = cc
is_match-listed (some (ri_class cls)) e = cc
is_match-listed (some ri_any) e = cc
is_match-listed (some ri_bol) e = cc
is_match-listed (some ri_eol) e = cc
is_match-listed (some (ri_split x y)) e = cc
is_match-listed (some (ri_jmp x)) e = cc
is_match-listed (some ri_match) e = refl

pub takes-listed :
    (re : Regex) (len : ℕ) (o : Option Inst) (c : ℕ) → takes re len o c ≡ true → is_listed o ≡ true
unfolding takes is_listed
takes-listed re len (some (ri_char ch)) c e = refl
takes-listed re len (some (ri_class cls)) c e = refl
takes-listed re len (some ri_any) c e = refl
takes-listed re len none c e = cc
takes-listed re len (some ri_bol) c e = cc
takes-listed re len (some ri_eol) c e = cc
takes-listed re len (some (ri_split x y)) c e = cc
takes-listed re len (some (ri_jmp x)) c e = cc
takes-listed re len (some ri_match) c e = cc

sub_zero : (pos e : ℕ) → pos - e ≡ 0 → e < suc pos → e ≡ pos
sub_zero pos e h k = omega arith

pub Holds-map :
    (P Q : ℕ → ℕ → Type 0) (b : Best) → ((s e : ℕ) → P s e → Q s e) → Holds P b → Holds Q b
Holds-map P Q none f h = h
Holds-map P Q (some (s, e)) f h = f s e h

-- A start is kept if one that is not earlier is.
pub pruned-earlier : (best : Best) (s t : ℕ) → t ≤ s → pruned best s ≡ false → pruned best t ≡ false
pruned-earlier none s t k h = refl
pruned-earlier (some (bs, be)) s t k h = ground arith

module _ (re : Regex) (line : Bytes) where
  -- The match was found, not behind `pos`, and none that ends at most there is better.
  pub record Known (pos below : ℕ) (best : Best) : Type 0 where
    pub found : Holds (λ s e. Accepts re line s e × (e ≤ pos)) best
    pub beaten : (s e : ℕ) → e < below → Accepts re line s e → Wins best s e

  pub record State (pos : ℕ) (list : List Thread) (best : Best) : Type 0 where
    pub sound : (pc s : ℕ) → Occurs (pc, s) list → Run re line s pc pos
    pub complete : Complete re line pos best list
    pub rising : Rising 0 list
    pub known : Known pos pos best

  pub harvest-Known :
      (pos : ℕ) (list : List Thread) (best : Best)
      → State pos list best
      → Known pos (suc pos) (harvest re (length line) pos list best)
  harvest-Known pos list best i = record {
    found =
        harvest-Holds re (length line) _ pos list best i.known.found
          λ pc s o m. ((pc, i.sound pc s o, m), omega arith);
    beaten = λ s e k (pc, r, m). elim (zero_or_suc (pos - e)) [
      | inr (d, below) ↦
          harvest-kept re (length line) pos list best s e
            (i.known.beaten s e (omega arith) (pc, r, m))
      | inl here ↦
          let now = subst (Run re line s pc) (sub_zero pos e here k) r in
          elim (Bool-cases (pruned best s)) [
            | inl late ↦ harvest-kept re (length line) pos list best s e (pruned-Wins best s e late)
            | inr live ↦
                let (t, o, earlier) = i.complete pc s now live (is_match-listed _ m) in
                subst (Wins (harvest re (length line) pos list best) s)
                  (sym (sub_zero pos e here k))
                  (Wins-later _ s t pos earlier
                    (harvest-Wins re (length line) pos list best pc t o m))
          ]
    ];
  }

  -- Where nothing is found, the thread that starts at the next position is added.
  unfoldable pub Injected : ℕ → Best → Added → Added → Type 0
  Injected pos best a b =
      Inv re line (suc pos) (λ pc t. Run re line t pc (suc pos)) (suc pos) [] b
      × ((pc t : ℕ) → Marked a.marks pc t → Marked b.marks pc t)
      × (suc pos ≤ length line → pruned best (suc pos) ≡ false → Marked b.marks 0 (suc pos))

  pub inject-Injected :
      (pos : ℕ) (best : Best) (a : Added)
      → suc pos ≤ length line
      → Holds (λ s e. Accepts re line s e × (e ≤ pos)) best
      → Inv re line (suc pos) (λ pc t. Run re line t pc (suc pos)) pos [] a
      → Injected pos best a (inject re (length line) pos best a)
  unfolding Injected inject
  inject-Injected pos none a k h i =
      let (inv, kept, marked) =
        re_add-Inv re line (suc pos) (λ pc2 t. Run re line t pc2 (suc pos))
          (λ pc2 pc3 t q o. eps q o) pos (suc pos) 0 a i (omega arith) (begin k) in
      (inv, kept, λ l live. marked)
  inject-Injected pos (some (bs, be)) a k ((pc, r, m), h) i = (
    Inv-later re line (suc pos) _ pos (suc pos) a i (omega arith),
    λ pc2 t q. q,
    λ l live. absurd (ground (arith, (Run-bounds re line r).0, h)),
  )
