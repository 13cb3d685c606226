-- ===== src/Core/Proto/Registry.antt =====
-- The registry of services is a function from names to services.
use mathlib.Core.Path.{fun_ext}
use ccml.Base.{
  ◌≡◌, ◌↔◌, refl, ap, subst, ◌∙◌, false, List, [], ◌∷◌, Option, none, some, if◌then◌else◌, arith,
  Bool-cases, inl, inr,
}
use ccml.Utils.Logging.{Logged, ◌>>=◌, quiet}
use ccml.Utils.Logging.Quiet.{◌⨾◌}
use ccml.Utils.Str.{Text, str_eq}
use ccml.Utils.Str.Prefix.{str_eq_refl, str_eq_sound}
use ccml.Core.Proto.{
  Service, Services, find_service, assign_service, is_registered,
  register_service_function_implement,
}

-- A registry as a client sees it.
abbrev pub View : Type 0
View = Text → Option Service

-- The view with one name changed.
abbrev pub update : View → Text → Service → View
update v name f other = if str_eq name other then some f else v other

find_service-assign :
    (name : Text) (f : Service) (m : Services) (other : Text)
    → find_service other (assign_service name f m) ≡ update (λ n. find_service n m) name f other
unfolding find_service assign_service
find_service-assign name f [] other = refl
find_service-assign name f ((k, g) ∷ rest) other = elim (Bool-cases (str_eq k name)) [
  | inl same ↦ let e : k ≡ name = str_eq_sound k name same in rw (same, e) (ground arith)
  | inr diff ↦ rw diff (
      ground (
        arith,
        find_service-assign name f rest other,
        str_eq_sound k other,
        str_eq_sound name other,
        str_eq_refl name,
      ))
]

abbrev pub view_of : Services → View
view_of m name = find_service name m

view_of-register :
    (name : Text) (f : Service) (m : Services)
    → view_of (register_service_function_implement name f m).value ≡ update (view_of m) name f
unfolding register_service_function_implement
view_of-register name f m = fun_ext (find_service-assign name f m)

is_registered-none : (o : Option Service) → (is_registered o ≡ false) ↔ (o ≡ none)
unfolding is_registered
is_registered-none none = ground arith
is_registered-none (some f) = ground arith

register-quiet :
    (name : Text) (f : Service) (m : Services)
    → ((register_service_function_implement name f m).log ≡ []) ↔ (view_of m name ≡ none)
unfolding register_service_function_implement
register-quiet name f m = ground (arith, is_registered-none (find_service name m))

-- Registrations one after the other, as a server makes them when it starts.
pub register_list : List (Text × Service) → Services → Logged Services
register_list [] m = quiet m
register_list ((name, f) ∷ calls) m =
    register_service_function_implement name f m >>= register_list calls

-- The same on a function.
pub replay : List (Text × Service) → View → View
replay [] v = v
replay ((name, f) ∷ calls) v = replay calls (update v name f)

-- Every name is new when it is registered.
abbrev pub AllNew : List (Text × Service) → View → Type 0
AllNew [] v = Unit
AllNew ((name, f) ∷ calls) v = (v name ≡ none) × AllNew calls (update v name f)

register_list-view :
    (calls : List (Text × Service)) (m : Services)
    → view_of (register_list calls m).value ≡ replay calls (view_of m)
unfolding register_list replay
register_list-view [] m = refl
register_list-view ((name, f) ∷ calls) m =
    register_list-view calls (register_service_function_implement name f m).value
    ∙ ap (replay calls) (view_of-register name f m)

register_list-quiet :
    (calls : List (Text × Service)) (m : Services) (v : View)
    → view_of m ≡ v
    → ((register_list calls m).log ≡ []) ↔ AllNew calls v
unfolding register_list
register_list-quiet [] m v e = ground arith
register_list-quiet ((name, f) ∷ calls) m v e =
    subst (λ w. ((register_service_function_implement name f m).log ≡ []) ↔ (w name ≡ none)) e
      (register-quiet name f m)
    ⨾ register_list-quiet calls (register_service_function_implement name f m).value
        (update v name f) (view_of-register name f m ∙ ap (λ w. update w name f) e)

-- A server that registers services one after the other has, for each name, the service that was
-- registered for it last, and no service for any other name; it logs nothing exactly when every name
-- was new.
pub register_list_refines :
    (calls : List (Text × Service))
    → (view_of (register_list calls []).value ≡ replay calls (λ name. none))
      × (((register_list calls []).log ≡ []) ↔ AllNew calls (λ name. none))
register_list_refines calls =
    (register_list-view calls [] ∙ ap (replay calls) start, register_list-quiet calls [] _ start)
  where
    start : view_of [] ≡ (λ name. none)
    start = unfold find_service in refl
