-- ===== src/Regex.antt =====
-- std/regex.c: the regular expressions of the standard tools. Here is the compiled program with its
-- search; the search keeps the threads of one position in a list, without backtracking.
--
-- A generation of marks is the list of the states that were marked in it, each with its start, so that
-- the counter of generations is left out. A thread in a list carries its start with it. A state outside
-- the program has no successor, and a class that is not there takes no byte.
pub mod Runs
pub mod Tree
pub mod Grammar
pub mod Parser
pub mod Atom
pub mod Language
mod Closure
mod Marks
mod Invariant
mod Emitted
pub mod Texts
pub mod Literal
pub mod Patterns
mod Inside
mod Jumps
mod Trees
mod Quantifiers
mod Atoms
pub mod Sound
pub mod Compiled
mod RepeatMeans
mod Meaning
mod Loops
mod Branching
mod Means
pub mod Codes
mod Coded
mod Repeats
mod Patched
mod Steps
pub mod Leftmost
mod Rounds
mod Complete
mod Advance
pub mod Harvest
mod Settling
use asterism_astools.Prelude.{
  ℕ, zero, suc, ◌+◌, ◌-◌, ◌*◌, ◌/◌, ◌%◌, ◌^◌, ◌≤◌, ◌<◌, ◌≡◌, refl, sym, ap, ◌∙◌, ◌≢◌, ◌↔◌, ◌⊎◌, inl,
  inr,
}
use asterism_astools.Prelude.{
  Bool, true, false, not, ◌&&◌, ◌||◌, Option, none, some, List, [], ◌∷◌, ◌++◌, map, arith,
}
use asterism_astools.Prelude.{
  ltb, leb, ◌==◌, if◌then◌else◌, ltb→lt, lt→ltb, leb→le, ==_iff, tests, Bool-cases, some_inj,
  bool_clash, Option-cases, agree_below, agree_below→eq,
}
use asterism_astools.Prelude.{
  length, get_elem?, get_or, take, drop, replicate, length-append, take-append-drop,
  drop-append_length, take-append_length, All-drop, All-append, zero_or_suc, list_cases, length_pos,
  length-take, length-drop, All,
}
use asterism_astools.Prelude.{
  bind_option, bind_option_inv, Bytes, AreBytes, str_eq, str_eq_iff, str_eq_refl, codes, peek,
  advance, within, is_digit, Result, ok, err, Err, Result-cases, bind-eq-ok, ◌>>=◌,
}

pub data Inst : Type 0 where
  ri_char : (ch : ℕ) → Inst
  ri_class : (cls : ℕ) → Inst
  ri_any : Inst
  ri_bol : Inst
  ri_eol : Inst
  ri_split : (x y : ℕ) → Inst
  ri_jmp : (x : ℕ) → Inst
  ri_match : Inst

-- The bitmap of a class is its test.
abbrev pub Class : Type 0
Class = ℕ → Bool

pub record Regex : Type 0 where
  pub prog : List Inst
  pub cls : List Class
  pub fold : Bool

abbrev pub fold_ch : Bool → ℕ → ℕ
fold_ch fold c = if fold && within b'A' b'Z' c then c + 32 else c

-- A state of the program with the start of its thread.
abbrev pub Thread : Type 0
Thread = ℕ × ℕ

abbrev pub start_of : List Thread → ℕ → Option ℕ
start_of [] pc = none
start_of ((q, s) ∷ marks) pc = if q == pc then some s else start_of marks pc

-- What `re_add` pushes for an instruction, the top of the stack first.
unfoldable pub pushes : Option Inst → ℕ → ℕ → ℕ → List ℕ
pushes (some (ri_jmp x)) pc pos len = x ∷ []
pushes (some (ri_split x y)) pc pos len = x ∷ y ∷ []
pushes (some ri_bol) pc pos len = if pos == 0 then suc pc ∷ [] else []
pushes (some ri_eol) pc pos len = if pos == len then suc pc ∷ [] else []
pushes _ pc pos len = []

-- Whether `re_add` puts the state into the list.
unfoldable pub is_listed : Option Inst → Bool
is_listed (some (ri_char ch)) = true
is_listed (some (ri_class cls)) = true
is_listed (some ri_any) = true
is_listed (some ri_match) = true
is_listed _ = false

-- The marks of a generation and the list of threads.
pub record Added : Type 0 where
  pub marks : List Thread
  pub list : List Thread

abbrev pub none_added : Added
none_added = record { marks = []; list = [] }

-- The match that was found, its start and end.
abbrev pub Best : Type 0
Best = Option (ℕ × ℕ)

-- A match at `pos` with the start `s`.
unfoldable pub better : ℕ → ℕ → Best → Best
better pos s none = some (s, pos)
better pos s (some (bs, be)) =
    if ltb s bs
    then some (s, pos)
    else if s == bs && ltb be pos
    then some (bs, pos)
    else some (bs, be)

unfoldable pub is_match : Option Inst → Bool
is_match (some ri_match) = true
is_match _ = false

-- `found && s > bs`
abbrev pub pruned : Best → ℕ → Bool
pruned none s = false
pruned (some (bs, be)) s = ltb bs s

abbrev pub is_over : List Thread → Best → Bool
is_over [] (some b) = true
is_over _ _ = false

module _ (re : Regex) (len : ℕ) where
  -- A round of the loop of `re_add` for the state from the top of the stack.
  unfoldable pub visit : ℕ → ℕ → ℕ → Added → Added
  visit pos s pc a = record {
    marks = (pc, s) ∷ a.marks;
    list = if is_listed (get_elem? re.prog pc) then a.list ++ (pc, s) ∷ [] else a.list;
  }

  -- The loop of `re_add`, with the stack.
  unfoldable pub add_loop : ℕ → ℕ → ℕ → List ℕ → Added → Added
  add_loop zero pos s stk a = a
  add_loop (suc fuel) pos s [] a = a
  add_loop (suc fuel) pos s (pc ∷ stk) a = elim (start_of a.marks pc) [
    | some t ↦ add_loop fuel pos s stk a
    | none ↦
        add_loop fuel pos s (pushes (get_elem? re.prog pc) pc pos len ++ stk) (visit pos s pc a)
  ]

  -- `re_add`; the stack has `2 * nprog + 2` slots.
  abbrev pub re_add : ℕ → ℕ → ℕ → Added → Added
  re_add pos s pc a = add_loop (2 * length re.prog + 2) pos s (pc ∷ []) a

  unfoldable pub harvest : ℕ → List Thread → Best → Best
  harvest pos [] best = best
  harvest pos ((pc, s) ∷ list) best =
      harvest pos list (if is_match (get_elem? re.prog pc) then better pos s best else best)

  -- Whether an instruction takes a byte.
  unfoldable pub takes : Option Inst → ℕ → Bool
  takes (some (ri_char ch)) c = fold_ch re.fold c == ch
  takes (some (ri_class cls)) c = elim (get_elem? re.cls cls) [ none ↦ false | some has ↦ has c ]
  takes (some ri_any) c = true
  takes _ c = false

  -- The threads of the next position, `pos + 1`.
  unfoldable pub advance_all : ℕ → ℕ → Best → List Thread → Added → Added
  advance_all pos c best [] a = a
  advance_all pos c best ((pc, s) ∷ list) a =
      advance_all pos c best list (elim (not (pruned best s) && takes (get_elem? re.prog pc) c) [
        | true ↦ re_add (suc pos) s (suc pc) a
        | false ↦ a
      ])

  -- With the thread that starts there, where nothing is found.
  unfoldable pub inject : ℕ → Best → Added → Added
  inject pos none a = re_add (suc pos) (suc pos) 0 a
  inject pos (some b) a = a

  unfoldable pub search_loop : ℕ → List Thread → Best → List ℕ → Best
  search_loop pos list best [] = harvest pos list best
  search_loop pos list best (c ∷ rest) =
      let found = harvest pos list best in
      let next = (inject pos found (advance_all pos c found list none_added)).list in
      elim (is_over next found) [ true ↦ found | false ↦ search_loop (suc pos) next found rest ]

-- `astd_regex_search`
unfoldable pub regex_search : Regex → Bytes → Option (ℕ × ℕ)
regex_search re line =
    search_loop re (length line) 0 (re_add re (length line) 0 0 0 none_added).list none line
