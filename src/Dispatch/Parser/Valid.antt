-- ===== src/Dispatch/Parser/Valid.antt =====
-- What a dispatch that was parsed consists of.
use pycodebridge.Base.{
  ℕ, ltb, ◌≤◌, ◌≡◌, refl, sym, ap, ◌∙◌, subst, arith, Bool, true, false, not, ◌&&◌, List, [], ◌∷◌,
  ◌++◌, some, any, all, keep, length, if_intro, Bool-cases, inl, inr,
}
use pycodebridge.Base.Options.{some_injective}
use pycodebridge.Base.Text.{Text, str, text_eq, text_eq→eq, text_eq_refl}
use pycodebridge.Dispatch.Parser.{
  DispatchSpec, is_known, lower, collect_agents, mentions, scan, spec_of, parse_dispatch,
}
use pycodebridge.Dispatch.Orchestrator.Run.{is_claude, workers_of}

abbrev pub AreDistinct : List Text → Type 0
AreDistinct [] = Unit
AreDistinct (a ∷ agents) = (any (text_eq a) agents ≡ false) × AreDistinct agents

-- Known agents, each once.
pub record AreAgents (agents : List Text) : Type 0 where
  pub known : all is_known agents ≡ true
  pub distinct : AreDistinct agents

text_eq-sym : (s t : Text) → text_eq s t ≡ text_eq t s
unfolding text_eq
text_eq-sym [] [] = refl
text_eq-sym [] (d ∷ t) = refl
text_eq-sym (c ∷ s) [] = refl
text_eq-sym (c ∷ s) (d ∷ t) = let rest = text_eq-sym s t in ground arith

any-append :
    (a b : Text) (agents : List Text)
    → any (text_eq a) agents ≡ false
    → text_eq a b ≡ false
    → any (text_eq a) (agents ++ b ∷ []) ≡ false
any-append a b [] e n = ground arith
any-append a b (x ∷ agents) e n = let rest = any-append a b agents in ground arith

append-AreDistinct :
    (agents : List Text) (b : Text)
    → AreDistinct agents
    → any (text_eq b) agents ≡ false
    → AreDistinct (agents ++ b ∷ [])
append-AreDistinct [] b d e = (refl, tt)
append-AreDistinct (a ∷ agents) b d e = (
  any-append a b agents d.0 (text_eq-sym a b ∙ ground arith),
  append-AreDistinct agents b d.1 ground arith,
)

append-known :
    (agents : List Text) (b : Text)
    → all is_known agents ≡ true
    → is_known b ≡ true
    → all is_known (agents ++ b ∷ []) ≡ true
append-known [] b k e = ground arith
append-known (a ∷ agents) b k e = let rest = append-known agents b in ground arith

collect_agents-AreAgents :
    (tokens agents : List Text) → AreAgents agents → AreAgents (collect_agents tokens agents)
unfolding collect_agents
collect_agents-AreAgents [] agents v = v
collect_agents-AreAgents (token ∷ tokens) agents v =
    let a = lower token in
    collect_agents-AreAgents tokens _ (
      if_intro AreAgents (is_known a && not (any (text_eq a) agents)) (agents ++ a ∷ []) agents
        (λ e. record {
          known = append-known agents a v.known (ground arith);
          distinct = append-AreDistinct agents a v.distinct (ground arith);
        })
        (λ e. v))

-- Of two agents that differ one is not claude.
claude_once : (a b : Text) → text_eq a b ≡ false → is_claude a ≡ true → is_claude b ≡ false
claude_once a b n e = elim (Bool-cases (is_claude b)) [
  | inl t ↦
      let same = text_eq→eq a (str "claude") e ∙ sym (text_eq→eq b (str "claude") t) in
      let yes : text_eq a b ≡ true = (rw same (text_eq_refl b)) in cc
  | inr f ↦ f
]

two_workers :
    (a b : Text) (agents : List Text)
    → text_eq a b ≡ false
    → 1 ≤ length (keep (λ x. not (true && is_claude x)) (a ∷ b ∷ agents))
two_workers a b agents n = elim (Bool-cases (is_claude a)) [
  | inl t ↦ let f = claude_once a b n t in rw t rw f omega arith
  | inr f ↦ rw f omega arith
]

all_workers : (agents : List Text) → keep (λ x. not (false && is_claude x)) agents ≡ agents
all_workers [] = refl
all_workers (a ∷ agents) = ap (◌∷◌ a) (all_workers agents)

no_claude :
    (agents : List Text) → any is_claude (keep (λ x. not (true && is_claude x)) agents) ≡ false
no_claude [] = refl
no_claude (a ∷ agents) = let rest = no_claude agents in ground arith

some_workers :
    (lead : Bool) (agents : List Text)
    → AreDistinct agents
    → (lead ≡ true → 2 ≤ length agents)
    → 1 ≤ length agents
    → 1 ≤ length (keep (λ x. not (lead && is_claude x)) agents)
some_workers false agents d two one = rw (all_workers agents) one
some_workers true [] d two one = one
some_workers true (a ∷ []) d two one = let no = two refl in absurd (omega arith)
some_workers true (a ∷ b ∷ agents) d two one = two_workers a b agents (ground arith)

without_leader :
    (lead : Bool) (agents : List Text)
    → lead ≡ true
    → any is_claude (keep (λ x. not (lead && is_claude x)) agents) ≡ false
without_leader true agents e = no_claude agents
without_leader false agents e = cc

-- Known agents, each once, and at least one that works; claude, when it leads others, is not one.
pub record IsDispatch (spec : DispatchSpec) : Type 0 where
  pub agents : AreAgents spec.agents
  pub workers : 1 ≤ length (workers_of spec)
  pub leader : spec.is_orchestrated ≡ true → any is_claude (workers_of spec) ≡ false
  pub fanout : spec.is_fanout ≡ true → 2 ≤ length spec.agents

make-IsDispatch :
    (spec : DispatchSpec)
    → AreAgents spec.agents
    → 1 ≤ length spec.agents
    → (spec.is_orchestrated ≡ true → 2 ≤ length spec.agents)
    → (spec.is_fanout ≡ true → 2 ≤ length spec.agents)
    → IsDispatch spec
unfolding workers_of
make-IsDispatch spec v one two many = record {
  agents = v;
  workers = some_workers spec.is_orchestrated spec.agents v.distinct two one;
  leader = without_leader spec.is_orchestrated spec.agents;
  fanout = many;
}

several : (n : ℕ) (b : Bool) → (b && ltb 1 n) ≡ true → 2 ≤ n
several n true e = ground arith
several n false e = cc

spec_of-IsDispatch :
    (is_word : ℕ → Bool) (raw : Text) (agents : List Text) (spec : DispatchSpec)
    → AreAgents agents
    → spec_of is_word raw agents ≡ some spec
    → IsDispatch spec
spec_of-IsDispatch is_word raw [] spec v e = cc
spec_of-IsDispatch is_word raw (a ∷ agents) spec v e = subst IsDispatch (some_injective _ spec e) (
    make-IsDispatch _ v (omega arith) (several (length (a ∷ agents)) _)
      (several (length (a ∷ agents)) true))

-- A dispatch that is parsed mentions known agents only, each once, and at least two if it is a
-- fan-out; it always has an agent to do the work, which is not claude when claude leads others.
pub parse_dispatch-IsDispatch :
    (is_word : ℕ → Bool) (message : Text) (spec : DispatchSpec)
    → parse_dispatch is_word message ≡ some spec
    → IsDispatch spec
unfolding parse_dispatch
parse_dispatch-IsDispatch is_word message spec e =
    spec_of-IsDispatch is_word message _ spec
      (collect_agents-AreAgents (mentions (scan is_word 0 true message)) []
        (record { known = refl; distinct = tt }))
      e
