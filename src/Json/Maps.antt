-- ===== src/Json/Maps.antt =====
-- The members of an object as a `std::map`: lookups after an assignment, and members in the order of
-- their keys.
use cget.Prelude.{
  Bool, true, false, ◌&&◌, ◌≡◌, refl, sym, ◌∙◌, some, [], ◌∷◌, Text, text_eq, text_eq_refl,
  text_eq_iff, arith, Bool-cases, inl, inr,
}
use cget.Json.Syntax.{Value, Members, no_members, member, text_less, emplace, put, find}
use cget.Json.Parser.{collect}

pub find-put : (k : Text) (v : Value) (ms : Members) → find k (put k v ms) ≡ some v
unfolding find put
find-put k v no_members = rw (text_eq_refl k) refl
find-put k v (member x w rest) = ground (arith, text_eq_refl k, find-put k v rest)

same_key : (j k x : Text) → text_eq j k ≡ false → text_eq k x ≡ true → text_eq j x ≡ false
same_key j k x apart same = rw (sym ((text_eq_iff k x).0 same)) apart

pub find-put_apart :
    (j k : Text) (v : Value) (ms : Members) → text_eq j k ≡ false → find j (put k v ms) ≡ find j ms
unfolding find put
find-put_apart j k v no_members h = rw h refl
find-put_apart j k v (member x w rest) h = elim (Bool-cases (text_eq k x)) [
  | inl same ↦ rw (same, h, same_key j k x h same) refl
  | inr apart ↦ rw apart (ground (arith, h, find-put_apart j k v rest h))
]

less_apart : (x y : Text) → text_less x y ≡ true → (text_eq y x ≡ false) × (text_less y x ≡ false)
unfolding text_less text_eq
less_apart [] [] h = cc
less_apart [] (c ∷ cs) h = (refl, refl)
less_apart (b ∷ bs) [] h = cc
less_apart (b ∷ bs) (c ∷ cs) h = ground (arith, less_apart bs cs)

-- Every key is after `k`, or before it.
abbrev pub Above : Text → Members → Type 0
Above k no_members = Unit
Above k (member x v rest) = (text_less k x ≡ true) × Above k rest

abbrev Below : Text → Members → Type 0
Below k no_members = Unit
Below k (member x v rest) = (text_less x k ≡ true) × Below k rest

abbrev pub IsOrdered : Members → Type 0
IsOrdered no_members = Unit
IsOrdered (member k v rest) = Above k rest × IsOrdered rest

abbrev AllBelow : Members → Members → Type 0
AllBelow ms no_members = Unit
AllBelow ms (member k v rest) = Below k ms × AllBelow ms rest

add_last : Members → Text → Value → Members
add_last no_members k v = member k v no_members
add_last (member x w rest) k v = member x w (add_last rest k v)

join : Members → Members → Members
join no_members ns = ns
join (member k v rest) ns = member k v (join rest ns)

join-add_last :
    (ms : Members) (k : Text) (v : Value) (ns : Members)
    → join (add_last ms k v) ns ≡ join ms (member k v ns)
unfolding join add_last
join-add_last no_members k v ns = refl
join-add_last (member x w rest) k v ns = rw (join-add_last rest k v ns) refl

emplace_last : (k : Text) (v : Value) (ms : Members) → Below k ms → emplace k v ms ≡ add_last ms k v
unfolding emplace add_last
emplace_last k v no_members h = refl
emplace_last k v (member x w rest) (first, others) =
    let (apart, after) = less_apart x k first in
    rw (apart, after, emplace_last k v rest others) refl

Below-add_last :
    (j k : Text) (v : Value) (ms : Members)
    → Below j ms
    → text_less k j ≡ true
    → Below j (add_last ms k v)
unfolding add_last
Below-add_last j k v no_members b h = (h, tt)
Below-add_last j k v (member x w rest) (first, others) h =
    (first, Below-add_last j k v rest others h)

AllBelow-add_last :
    (ms : Members) (k : Text) (v : Value) (ns : Members)
    → AllBelow ms ns
    → Above k ns
    → AllBelow (add_last ms k v) ns
AllBelow-add_last ms k v no_members b a = tt
AllBelow-add_last ms k v (member j w rest) (first, others) (above, aboves) =
    (Below-add_last j k v ms first above, AllBelow-add_last ms k v rest others aboves)

join-none : (ms : Members) → join ms no_members ≡ ms
unfolding join
join-none no_members = refl
join-none (member k v rest) = rw (join-none rest) refl

collect_onto : (ms ns : Members) → AllBelow ms ns → IsOrdered ns → collect ms ns ≡ join ms ns
unfolding collect
collect_onto ms no_members b o = sym (join-none ms)
collect_onto ms (member k v rest) (below, belows) (above, o) = rw (emplace_last k v ms below) (
    collect_onto (add_last ms k v) rest (AllBelow-add_last ms k v rest belows above) o
    ∙ join-add_last ms k v rest)

AllBelow-no_members : (ns : Members) → AllBelow no_members ns
AllBelow-no_members no_members = tt
AllBelow-no_members (member k v rest) = (tt, AllBelow-no_members rest)

-- Members in the order of their keys go into a map as they are.
pub collect_ordered : (ms : Members) → IsOrdered ms → collect no_members ms ≡ ms
unfolding join
collect_ordered ms o = collect_onto no_members ms (AllBelow-no_members ms) o

abbrev is_above : Text → Members → Bool
is_above k no_members = true
is_above k (member x v rest) = text_less k x && is_above k rest

-- The test for the order of the keys.
abbrev pub are_ordered : Members → Bool
are_ordered no_members = true
are_ordered (member k v rest) = is_above k rest && are_ordered rest

is_above-Above : (k : Text) (ms : Members) → is_above k ms ≡ true → Above k ms
is_above-Above k no_members h = tt
is_above-Above k (member x v rest) h =
    (ground (arith, h), is_above-Above k rest (ground (arith, h)))

pub are_ordered-IsOrdered : (ms : Members) → are_ordered ms ≡ true → IsOrdered ms
are_ordered-IsOrdered no_members h = tt
are_ordered-IsOrdered (member k v rest) h =
    (is_above-Above k rest (ground (arith, h)), are_ordered-IsOrdered rest (ground (arith, h)))
