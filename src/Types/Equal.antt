-- ===== src/Types/Equal.antt =====
-- Comparison of types, against what the types say.
use snuk.Prelude.{ℕ, suc, ◌≡◌, refl, ap, ap₂, ◌↔◌, Bool, true, false, ◌&&◌, List, [], arith, ◌==◌}
use snuk.Text.{content, Fits, equal}
use snuk.Text.Equal.{equal_iff}
use snuk.Types
use snuk.Types.{
  SnukType, Params, Members, params_length, members_length, type_equal, params_equal, members_equal,
}

-- What a type says: the bytes of its names, and nothing of the memory they stand in.
mutual
  pub data Spelled : Type 0 where
    nothing : Spelled
    any_word : Spelled
    type_word : Spelled
    named : List ℕ → Spelled
    fn : SpelledParams → Spelled → Spelled
    interface : SpelledMembers → Spelled

  pub data SpelledParams : Type 0 where
    no_more : SpelledParams
    also : Spelled → SpelledParams → SpelledParams

  pub data SpelledMembers : Type 0 where
    no_others : SpelledMembers
    has : List ℕ → Spelled → SpelledMembers → SpelledMembers

unfoldable mutual
  pub spelled : SnukType → Spelled
  spelled Types.no_type = nothing
  spelled Types.type_any = any_word
  spelled Types.type_type = type_word
  spelled (Types.type_named n) = named (content n)
  spelled (Types.type_fn ps r) = fn (spelled_params ps) (spelled r)
  spelled (Types.type_interface ms) = interface (spelled_members ms)

  pub spelled_params : Params → SpelledParams
  spelled_params Types.no_params = no_more
  spelled_params (Types.param t ps) = also (spelled t) (spelled_params ps)

  pub spelled_members : Members → SpelledMembers
  spelled_members Types.no_members = no_others
  spelled_members (Types.member n t ms) = has (content n) (spelled t) (spelled_members ms)

-- Every name of the type ends inside its string.
unfoldable mutual
  pub Sound : SnukType → Type 0
  Sound Types.no_type = ⊥
  Sound (Types.type_named n) = Fits n
  Sound (Types.type_fn ps r) = SoundParams ps × Sound r
  Sound (Types.type_interface ms) = SoundMembers ms
  Sound _ = Fits (record { str = []; len = 0 })

  pub SoundParams : Params → Type 0
  SoundParams Types.no_params = Fits (record { str = []; len = 0 })
  SoundParams (Types.param t ps) = Sound t × SoundParams ps

  pub SoundMembers : Members → Type 0
  SoundMembers Types.no_members = Fits (record { str = []; len = 0 })
  SoundMembers (Types.member n t ms) = Fits n × Sound t × SoundMembers ms

both_iff :
    {a b : Bool} {P Q : Type 0} → (a ≡ true) ↔ P → (b ≡ true) ↔ Q → ((a && b) ≡ true) ↔ (P × Q)
both_iff f g = ground arith

then_iff : {a : Bool} {P Q : Type 0} → (a ≡ true) ↔ P → P ↔ Q → (a ≡ true) ↔ Q
then_iff f g = (λ h. g.0 (f.0 h), λ q. f.1 (g.1 q))

named_iff : (x y : List ℕ) → (x ≡ y) ↔ (named x ≡ named y)
named_iff x y = (ap named, λ h. cc)

fn_iff : (r s : Spelled) (ps qs : SpelledParams) → ((r ≡ s) × (ps ≡ qs)) ↔ (fn ps r ≡ fn qs s)
fn_iff r s ps qs = (λ h. ap₂ fn h.1 h.0, λ h. (cc, cc))

interface_iff : (ms ns : SpelledMembers) → (ms ≡ ns) ↔ (interface ms ≡ interface ns)
interface_iff ms ns = (ap interface, λ h. cc)

also_iff : (t u : Spelled) (ps qs : SpelledParams) → ((t ≡ u) × (ps ≡ qs)) ↔ (also t ps ≡ also u qs)
also_iff t u ps qs = (λ h. ap₂ also h.0 h.1, λ h. (cc, cc))

has_iff :
    (n m : List ℕ) (t u : Spelled) (ms ns : SpelledMembers)
    → ((n ≡ m) × ((t ≡ u) × (ms ≡ ns))) ↔ (has n t ms ≡ has m u ns)
has_iff n m t u ms ns = (
  λ h. ap₂ (λ n (f : List ℕ → SpelledMembers). f n) h.0 (ap₂ (λ t ms n. has n t ms) h.1.0 h.1.1),
  λ h. (cc, (cc, cc)),
)

-- The lengths of the longer lists are compared before the first elements.
swap_iff :
    (a' a b c : Bool) {P : Type 0}
    → a' ≡ a
    → ((b && (a && c)) ≡ true) ↔ P
    → ((a' && (b && c)) ≡ true) ↔ P
swap_iff a' true true c e f = rw e f
swap_iff a' true false c e f = rw e f
swap_iff a' false true c e f = rw e f
swap_iff a' false false c e f = rw e f

swap2_iff :
    (a' a b c e : Bool) {P : Type 0}
    → a' ≡ a
    → ((b && (e && (a && c))) ≡ true) ↔ P
    → ((a' && (b && (e && c))) ≡ true) ↔ P
swap2_iff a' true b c e h f = rw h f
swap2_iff a' false false c e h f = rw h f
swap2_iff a' false true c true h f = rw h f
swap2_iff a' false true c false h f = rw h f

suc_same : (m n : ℕ) → (suc m == suc n) ≡ (m == n)
suc_same m n = ground arith

mutual
  unfolding type_equal spelled Sound params_length members_length

  type_equal_iff :
      (t u : SnukType) → Sound t → Sound u → (type_equal t u ≡ true) ↔ (spelled t ≡ spelled u)
  type_equal_iff (Types.type_named n) (Types.type_named m) p q =
      then_iff (equal_iff n m p q) (named_iff (content n) (content m))
  type_equal_iff (Types.type_fn ps r) (Types.type_fn qs s) p q =
      then_iff (both_iff (type_equal_iff r s p.1 q.1) (params_equal_iff ps qs p.0 q.0))
        (fn_iff (spelled r) (spelled s) (spelled_params ps) (spelled_params qs))
  type_equal_iff (Types.type_interface ms) (Types.type_interface ns) p q =
      then_iff (members_equal_iff ms ns p q)
        (interface_iff (spelled_members ms) (spelled_members ns))
  type_equal_iff Types.type_any Types.type_any p q = (λ h. refl, λ h. refl)
  type_equal_iff Types.type_type Types.type_type p q = (λ h. refl, λ h. refl)
  type_equal_iff Types.no_type _ p q = absurd p
  type_equal_iff _ Types.no_type p q = absurd q
  type_equal_iff _ _ p q = (λ h. absurd cc, λ h. absurd cc)

  params_equal_iff :
      (ps qs : Params)
      → SoundParams ps
      → SoundParams qs
      → ((params_length ps == params_length qs && params_equal ps qs) ≡ true)
        ↔ (spelled_params ps ≡ spelled_params qs)
  params_equal_iff (Types.param t ps) (Types.param u qs) p q =
      then_iff
        (swap_iff _ (params_length ps == params_length qs) (type_equal t u) (params_equal ps qs)
          (suc_same (params_length ps) (params_length qs))
          (both_iff (type_equal_iff t u p.0 q.0) (params_equal_iff ps qs p.1 q.1)))
        (also_iff (spelled t) (spelled u) (spelled_params ps) (spelled_params qs))
  params_equal_iff Types.no_params Types.no_params p q = (λ h. refl, λ h. refl)
  params_equal_iff _ _ p q = ground arith

  members_equal_iff :
      (ms ns : Members)
      → SoundMembers ms
      → SoundMembers ns
      → ((members_length ms == members_length ns && members_equal ms ns) ≡ true)
        ↔ (spelled_members ms ≡ spelled_members ns)
  members_equal_iff (Types.member n t ms) (Types.member m u ns) p q =
      then_iff
        (swap2_iff _ (members_length ms == members_length ns) (equal n m) (members_equal ms ns)
          (type_equal t u) (suc_same (members_length ms) (members_length ns))
          (both_iff (equal_iff n m p.0 q.0)
            (both_iff (type_equal_iff t u p.1 q.1) (members_equal_iff ms ns p.2 q.2))))
        (has_iff (content n) (content m) (spelled t) (spelled u) (spelled_members ms)
          (spelled_members ns))
  members_equal_iff Types.no_members Types.no_members p q = (λ h. refl, λ h. refl)
  members_equal_iff _ _ p q = ground arith

-- Two types whose names end inside their strings compare equal exactly when they are built the same
-- way from names with the same bytes.
pub type_equal-spelled :
    (t u : SnukType) → Sound t → Sound u → (type_equal t u ≡ true) ↔ (spelled t ≡ spelled u)
type_equal-spelled = type_equal_iff
