-- ===== src/Mux/Laws.antt =====
-- Which route a ServeMux takes, and what is left of a path behind a prefix.
use Prim.Native.String
use cartnova_go_microservice.Prelude.{
  String, ◌≡◌, refl, subst, ◌∙◌, Bool, true, false, ◌||◌, ◌&&◌, Option, none, some, List, [], ◌∷◌,
  ◌++◌, ◌==◌, eq_iff, ◌<>◌, if◌then◌else◌, arith,
}
use cartnova_go_microservice.Auth.{strip_prefix}
use cartnova_go_microservice.Mux.{
  Segment, wildcard, is_slash, beats, literal, Route, split, path_segments, matches, method_matches,
  takes, better, choose,
}

module _ {A : Type 0} where
  -- Every route of the table has the property.
  abbrev pub AllRoutes : (Route A → Type 0) → List (Route A) → Type 0
  AllRoutes P [] = Unit
  AllRoutes P (r ∷ rest) = P r × AllRoutes P rest

  -- The route that is taken has what every route has, and takes the request.
  pub choose-All :
      (P : Route A → Type 0) (routes : List (Route A)) (method : String) (segments : List String)
      (r : Route A)
      → AllRoutes P routes
      → choose routes method segments ≡ some r
      → P r × (takes r method segments ≡ true)
  unfolding choose better
  choose-All P [] method segments r h e = absurd (cc)
  choose-All P (q ∷ rest) method segments r h e =
      let ih = λ (x : Route A) (k : choose rest method segments ≡ some x).
        choose-All P rest method segments x h.1 k in
      chosen ih (choose rest method segments) refl (takes q method segments) refl e
    where
      T : Route A → Type 0
      T x = P x × (takes x method segments ≡ true)

      either : (b : Bool) (x y : Route A) → T x → T y → T (if b then x else y)
      either true x y tx ty = tx
      either false x y tx ty = ty

      both :
          ((x : Route A) → choose rest method segments ≡ some x → T x)
          → (o : Option (Route A)) → choose rest method segments ≡ o
          → T q
          → T (better q o)
      both ih none k t = t
      both ih (some x) k t = either (beats x.pattern q.pattern) x q (ih x k) t

      chosen :
          ((x : Route A) → choose rest method segments ≡ some x → T x)
          → (o : Option (Route A)) → choose rest method segments ≡ o
          → (b : Bool) → takes q method segments ≡ b
          → (if b then some (better q o) else o) ≡ some r
          → T r
      chosen ih o k false t e = ih r (k ∙ e)
      chosen ih o k true t e =
          let same : better q o ≡ r = ground arith in subst T same (both ih o k (h.0, t))

  abbrev pub any_takes : List (Route A) → String → List String → Bool
  any_takes [] method segments = false
  any_takes (r ∷ rest) method segments = takes r method segments || any_takes rest method segments

  pub choose-some :
      (routes : List (Route A)) (method : String) (segments : List String)
      → any_takes routes method segments ≡ true
      → (r : Route A) × (choose routes method segments ≡ some r)
  unfolding choose
  choose-some [] method segments h = absurd (cc)
  choose-some (q ∷ rest) method segments h =
      found (choose-some rest method segments) (takes q method segments) h
    where
      found :
          (any_takes rest method segments ≡ true
            → (r : Route A) × (choose rest method segments ≡ some r))
          → (b : Bool) → (b || any_takes rest method segments) ≡ true
          → (r : Route A) × ((if b
                then some (better q (choose rest method segments))
                else choose rest method segments)
              ≡ some r)
      found ih true h = (better q (choose rest method segments), refl)
      found ih false h = ih h

-- The text of these segments.
unfoldable pub join : List String → String
join [] = ""
join (s ∷ rest) = String.◌∷◌ "/" s <> join rest

abbrev Strips : String → String → List String → Type 0
Strips prefix s rest =
    (left : String) × (strip_prefix prefix s ≡ some left) × (path_segments left ≡ rest)

split-Strips : (s : String) → Strips (split s).0 s (split s).1
unfolding split path_segments strip_prefix
split-Strips String.[] = (String.[], refl, refl)
split-Strips (String.◌∷◌ c s) =
    let (left, stripped, behind) = split-Strips s in cut (is_slash c) refl left stripped behind
  where
    cut :
        (b : Bool)
        → is_slash c ≡ b
        → (left : String) → strip_prefix (split s).0 s ≡ some left
        → path_segments left ≡ (split s).1
        → Strips
            (if◌then◌else◌ {A = String × List String} b
              ("", (split s).0 ∷ (split s).1)
              (String.◌∷◌ c (split s).0, (split s).1)).0
            (String.◌∷◌ c s)
            (if◌then◌else◌ {A = String × List String} b
              ("", (split s).0 ∷ (split s).1)
              (String.◌∷◌ c (split s).0, (split s).1)).1
    cut true k left stripped behind = (String.◌∷◌ c s, refl, ground arith)
    cut false k left stripped behind = (left, ground arith, behind)

strip_prefix-compose :
    (a b s left : String)
    → strip_prefix a s ≡ some left
    → strip_prefix (a <> b) s ≡ strip_prefix b left
unfolding strip_prefix
strip_prefix-compose String.[] b s left e = ground (arith, Prim.Native.String.append.nil b)
strip_prefix-compose (String.◌∷◌ c a) b String.[] left e = absurd (cc)
strip_prefix-compose (String.◌∷◌ c a) b (String.◌∷◌ d s) left e =
    let ih = strip_prefix-compose a b s left in ground (arith, Prim.Native.String.append.cons c a b)

segment-Strips :
    (l : String) (path : String) (rest : List String)
    → path_segments path ≡ l ∷ rest
    → Strips (String.◌∷◌ "/" l) path rest
unfolding path_segments strip_prefix
segment-Strips l String.[] rest e = absurd (cc)
segment-Strips l (String.◌∷◌ c s) rest e =
    let (left, stripped, behind) = split-Strips s in (left, ground arith, ground arith)

pub join-Strips :
    (ls : List String) (path : String) (rest : List String)
    → path_segments path ≡ ls ++ rest
    → Strips (join ls) path rest
unfolding join strip_prefix
join-Strips [] path rest e = (path, refl, e)
join-Strips (l ∷ ls) path rest e =
    let (left, stripped, behind) = segment-Strips l path (ls ++ rest) e in
    let (more, strips, last) = join-Strips ls left rest behind in
    (more, strip_prefix-compose (String.◌∷◌ "/" l) (join ls) path left stripped ∙ strips, last)

-- The pattern behind these literals.
unfoldable pub drop_literals : List String → List Segment → Option (List Segment)
drop_literals [] pattern = some pattern
drop_literals (l ∷ ls) [] = none
drop_literals (l ∷ ls) (wildcard name ∷ pattern) = none
drop_literals (l ∷ ls) (literal text ∷ pattern) =
    let dropped = drop_literals ls pattern in if text == l then dropped else none

-- A pattern that begins with literals matches the paths that begin with them.
pub matches-drop :
    (ls : List String) (pattern behind : List Segment) (segments : List String)
    → drop_literals ls pattern ≡ some behind
    → matches pattern segments ≡ true
    → (rest : List String) × (segments ≡ ls ++ rest) × (matches behind rest ≡ true)
unfolding matches drop_literals
matches-drop [] pattern behind segments d e = (segments, refl, ground arith)
matches-drop (l ∷ ls) [] behind segments d e = absurd (cc)
matches-drop (l ∷ ls) (wildcard name ∷ pattern) behind segments d e = absurd (cc)
matches-drop (l ∷ ls) (literal text ∷ pattern) behind [] d e = absurd (cc)
matches-drop (l ∷ ls) (literal text ∷ pattern) behind (s ∷ segments) d e =
    let (rest, same, h) = matches-drop ls pattern behind segments (ground arith) (ground arith) in
    (rest, grind (arith, eq_iff), h)

-- Patterns that match the same paths: the names of wildcards do not matter.
unfoldable pub same_pattern : List Segment → List Segment → Bool
same_pattern [] [] = true
same_pattern [] (part ∷ q) = false
same_pattern (part ∷ p) [] = false
same_pattern (literal text ∷ p) (literal other ∷ q) = (text == other) && same_pattern p q
same_pattern (wildcard name ∷ p) (wildcard other ∷ q) = same_pattern p q
same_pattern (literal text ∷ p) (wildcard other ∷ q) = false
same_pattern (wildcard name ∷ p) (literal other ∷ q) = false

same_pattern-matches :
    (p q : List Segment) (segments : List String)
    → same_pattern p q ≡ true
    → matches q segments ≡ true
    → matches p segments ≡ true
unfolding matches same_pattern
same_pattern-matches [] [] segments s m = m
same_pattern-matches [] (part ∷ q) segments s m = absurd (cc)
same_pattern-matches (part ∷ p) [] segments s m = absurd (cc)
same_pattern-matches (literal text ∷ p) (wildcard other ∷ q) segments s m = absurd (cc)
same_pattern-matches (wildcard name ∷ p) (literal other ∷ q) segments s m = absurd (cc)
same_pattern-matches (literal text ∷ p) (literal other ∷ q) [] s m = absurd (cc)
same_pattern-matches (wildcard name ∷ p) (wildcard other ∷ q) [] s m = absurd (cc)
same_pattern-matches (literal text ∷ p) (literal other ∷ q) (x ∷ segments) s m =
    let ih = same_pattern-matches p q segments in grind (arith, eq_iff)
same_pattern-matches (wildcard name ∷ p) (wildcard other ∷ q) (x ∷ segments) s m =
    let ih = same_pattern-matches p q segments in ground arith

module _ {A : Type 0} where
  unfoldable pub has_route : List (Route A) → String → List Segment → Bool
  has_route [] method pattern = false
  has_route (r ∷ rest) method pattern =
      ((r.method == method) && same_pattern r.pattern pattern) || has_route rest method pattern

  -- A table with the route takes the requests of the route.
  pub has_route-takes :
      (routes : List (Route A)) (expected method : String) (pattern : List Segment)
      (segments : List String)
      → has_route routes expected pattern ≡ true
      → method_matches expected method ≡ true
      → matches pattern segments ≡ true
      → any_takes routes method segments ≡ true
  unfolding has_route takes
  has_route-takes [] expected method pattern segments h t m = absurd (cc)
  has_route-takes (r ∷ rest) expected method pattern segments h t m =
      let ih = has_route-takes rest expected method pattern segments in
      let same = same_pattern-matches r.pattern pattern segments in
      let equal = (eq_iff r.method expected).0 in grind arith
