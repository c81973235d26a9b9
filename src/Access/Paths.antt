-- ===== src/Access/Paths.antt =====
-- What routeAreaOf of packages/auth/src/policy.ts makes of a path with a query or a fragment.
use Prim.Native.Char.{Char, code as char_code}
use Prim.Native.String.append
use Prim.Native.String.{[], ◌∷◌, ◌++◌}
use hyperfixation_core.Prelude.{
  String, List, [], ◌∷◌, ◌≡◌, refl, ap, inl, inr, eqb, Bool-cases, if◌then◌else◌, ◌∙◌, sym, ◌≢◌,
  eq_iff, false, eqb_refl, select_where, split, first, first-put_first, not, ◌==◌,
}
use hyperfixation_core.Access.{RouteArea, segments, route_area_of, area_named, first_segment}

up_to : Char → String → String
unfolding first
up_to sep s = first (split sep s)

up_to-push :
    (sep c : Char) (s : String)
    → up_to sep (c ∷ s) ≡ (if eqb (char_code c) (char_code sep) then "" else c ∷ up_to sep s)
unfolding up_to split first
up_to-push sep c s = elim (Bool-cases (eqb (char_code c) (char_code sep))) [
  | inl e ↦ rw e refl
  | inr e ↦ rw e (first-put_first c (split sep s))
]

up_to-cong :
    (sep c : Char) (s t : String)
    → up_to sep s ≡ up_to sep t
    → up_to sep (c ∷ s) ≡ up_to sep (c ∷ t)
up_to-cong sep c s t e =
    up_to-push sep c s
    ∙ (ap (λ x. if eqb (char_code c) (char_code sep) then "" else c ∷ x) e
        ∙ sym (up_to-push sep c t))

up_to-append : (sep : Char) (s t : String) → up_to sep (s ++ (sep ∷ t)) ≡ up_to sep s
unfolding up_to split first
up_to-append sep [] t = ap (up_to sep) (append.nil (sep ∷ t)) ∙ rw (eqb_refl (char_code sep)) refl
up_to-append sep (c ∷ s) t =
    ap (up_to sep) (append.cons c s (sep ∷ t))
    ∙ up_to-cong sep c (s ++ (sep ∷ t)) s (up_to-append sep s t)

-- A fragment, before the start of a query or after it.
up_to-fragment : (s t : String) → up_to "#" (up_to "?" (s ++ ("#" ∷ t))) ≡ up_to "#" (up_to "?" s)
unfolding up_to split
up_to-fragment [] t =
    ap (λ x. up_to "#" (up_to "?" x)) (append.nil ("#" ∷ t))
    ∙ (ap (up_to "#") (up_to-push "?" "#" t) ∙ up_to-push "#" "#" (up_to "?" t))
up_to-fragment (c ∷ s) t =
    ap (λ x. up_to "#" (up_to "?" x)) (append.cons c s ("#" ∷ t))
    ∙ (elim (Bool-cases (eqb (char_code c) (char_code "?"))) [
      | inl e ↦ rw (up_to-push "?" c (s ++ ("#" ∷ t)), up_to-push "?" c s, e) refl
      | inr e ↦
          rw (up_to-push "?" c (s ++ ("#" ∷ t)), up_to-push "?" c s, e)
            (up_to-cong "#" c (up_to "?" (s ++ ("#" ∷ t))) (up_to "?" s) (up_to-fragment s t))
    ])

pieces : String → List String
pieces path = select_where (λ s. not (s == "")) (split "/" path)

path_area : String → RouteArea
unfolding first_segment
path_area path = area_named (first_segment (pieces path))

route_area_of-up_to : (s : String) → route_area_of s ≡ path_area (up_to "#" (up_to "?" s))
unfolding route_area_of segments path_area pieces up_to first
route_area_of-up_to s = refl

-- The area of a path is that of the path with any query, and with any fragment, put behind it.
pub suffix_keeps_area :
    (path suffix : String)
    → (route_area_of (path ++ ("?" ∷ suffix)) ≡ route_area_of path)
      × (route_area_of (path ++ ("#" ∷ suffix)) ≡ route_area_of path)
suffix_keeps_area path suffix = (
  route_area_of-up_to (path ++ ("?" ∷ suffix))
      ∙ (ap (λ x. path_area (up_to "#" x)) (up_to-append "?" path suffix)
          ∙ sym (route_area_of-up_to path)),
  route_area_of-up_to (path ++ ("#" ∷ suffix))
      ∙ (ap path_area (up_to-fragment path suffix) ∙ sym (route_area_of-up_to path)),
)

bare : String → String
bare s = up_to "#" (up_to "?" s)

bare-append :
    (c : Char) (s t : String)
    → eqb (char_code c) (char_code "?") ≡ false
    → eqb (char_code c) (char_code "#") ≡ false
    → bare ((c ∷ s) ++ t) ≡ c ∷ bare (s ++ t)
unfolding bare
bare-append c s t q h =
    rw (append.cons c s t, up_to-push "?" c (s ++ t), q, up_to-push "#" c (up_to "?" (s ++ t)), h)
      refl

bare-root : (s : String) → bare ("/" ++ s) ≡ "/" ∷ bare s
bare-root s = bare-append "/" "" s refl refl ∙ ap (λ x. "/" ∷ bare x) (append.nil s)

bare-api : (s : String) → bare ("/api/" ++ s) ≡ "/" ∷ "a" ∷ "p" ∷ "i" ∷ "/" ∷ bare s
bare-api s =
    bare-append "/" "api/" s refl refl
    ∙ ap (λ x. "/" ∷ x)
        (bare-append "a" "pi/" s refl refl
          ∙ ap (λ x. "a" ∷ x)
              (bare-append "p" "i/" s refl refl
                ∙ ap (λ x. "p" ∷ x)
                    (bare-append "i" "/" s refl refl ∙ ap (λ x. "i" ∷ x) (bare-root s))))

first_segment-plain : (ss : List String) → first ss ≢ "api" → first_segment ss ≡ first ss
unfolding first first_segment
first_segment-plain [] n = refl
first_segment-plain (s ∷ ss) n = elim (Bool-cases (s == "api")) [
  | inl e ↦ absurd (n ((eq_iff s "api").0 e))
  | inr e ↦ rw e refl
]

path_area-api :
    (x : String)
    → first (pieces x) ≢ "api"
    → path_area ("/" ∷ "a" ∷ "p" ∷ "i" ∷ "/" ∷ x) ≡ path_area ("/" ∷ x)
unfolding path_area first_segment pieces split select_where first
path_area-api x n = ap area_named (sym (first_segment-plain (pieces x) n))

-- What a route handler is asked under `/api` has the area of the page of the same path, unless
-- that path starts with `api` again.
pub api_keeps_area :
    (path : String)
    → first (segments path) ≢ "api"
    → route_area_of ("/api/" ++ path) ≡ route_area_of ("/" ++ path)
unfolding segments pieces up_to bare
api_keeps_area path n =
    route_area_of-up_to ("/api/" ++ path)
    ∙ (ap path_area (bare-api path)
        ∙ (path_area-api (bare path) n
            ∙ (ap path_area (sym (bare-root path)) ∙ sym (route_area_of-up_to ("/" ++ path)))))
