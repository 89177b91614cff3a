-- ===== src/Http/ServletLaws.antt =====
-- Which servlet src/http/servlet.cc picks for a path.
use phase.Base.{
  ℕ, ◌≡◌, refl, ap, sym, Bool, true, Option, none, some, List, [], ◌∷◌, ◌++◌, if◌then◌else◌, arith,
}
use phase.Http.Codes.{same_bytes, same_bytes_eq, same_bytes_refl}
use phase.Http.Servlets.{
  Servlet, ServletCreator, Creators, ServletDispatch, new_dispatch, entry, without, with_entry,
  creator_get, add_servlet_creator, add_glob_servlet_creator, del_servlet, del_glob_servlet,
  set_default, get_servlet, get_glob_servlet, first_glob, get_matched_servlet,
}

-- No uri has two entries.
abbrev pub Unique : Creators → Type 0
Unique [] = Unit
Unique ((k, c) ∷ m) = (entry k m ≡ none) × Unique m

same_bytes-sym : (a b : List ℕ) → same_bytes a b ≡ same_bytes b a
same_bytes-sym [] [] = refl
same_bytes-sym [] (d ∷ b) = refl
same_bytes-sym (c ∷ a) [] = refl
same_bytes-sym (c ∷ a) (d ∷ b) = ground (arith, same_bytes-sym a b)

same_key : (a b c : List ℕ) → same_bytes a b ≡ true → same_bytes a c ≡ same_bytes b c
same_key a b c h = ap (λ z. same_bytes z c) (same_bytes_eq a b h)

same_other : (a b c : List ℕ) → same_bytes a b ≡ true → same_bytes c a ≡ same_bytes c b
same_other a b c h = ap (λ z. same_bytes c z) (same_bytes_eq a b h)

same_entry : (a b : List ℕ) (m : Creators) → same_bytes a b ≡ true → entry b m ≡ entry a m
same_entry a b m h = ap (λ z. entry z m) (sym (same_bytes_eq a b h))

pub entry-with_entry :
    (j k : List ℕ) (c : ServletCreator) (m : Creators)
    → entry j (with_entry k c m) ≡ (if same_bytes k j then some c else entry j m)
unfolding entry with_entry
entry-with_entry j k c [] = ground arith
entry-with_entry j k c ((x, d) ∷ m) =
    ground (arith, entry-with_entry j k c m, same_key x k j, same_other k j x)

pub entry-without :
    (j k : List ℕ) (m : Creators)
    → Unique m
    → entry j (without k m) ≡ (if same_bytes k j then none else entry j m)
unfolding entry without
entry-without j k [] u = ground arith
entry-without j k ((x, d) ∷ m) (fresh, u) =
    ground (arith, fresh, entry-without j k m u, same_key x k j, same_other k j x, same_entry x j m)

pub without-Unique : (k : List ℕ) (m : Creators) → Unique m → Unique (without k m)
unfolding entry without
without-Unique k [] u = tt
without-Unique k ((x, d) ∷ m) (fresh, u) =
    ground (arith, fresh, u, without-Unique k m u, entry-without x k m u)

pub with_entry-Unique :
    (k : List ℕ) (c : ServletCreator) (m : Creators) → Unique m → Unique (with_entry k c m)
unfolding entry with_entry
with_entry-Unique k c [] u = (refl, tt)
with_entry-Unique k c ((x, d) ∷ m) (fresh, u) =
    ground
      (arith, fresh, u, with_entry-Unique k c m u, entry-with_entry x k c m, same_bytes-sym x k)

entry-append :
    (j : List ℕ) (m n : Creators)
    → entry j (m ++ n) ≡ elim (entry j m) [ none ↦ entry j n | some c ↦ some c ]
unfolding entry
entry-append j [] n = refl
entry-append j ((x, d) ∷ m) n = ground (arith, entry-append j m n)

added_last :
    (k : List ℕ) (c : ServletCreator) (m : Creators)
    → entry k m ≡ none
    → Unique m
    → Unique (m ++ (k, c) ∷ [])
unfolding entry
added_last k c [] e u = (refl, tt)
added_last k c ((x, d) ∷ m) e (fresh, u) =
    ground
      (arith, e, fresh, entry-append x m ((k, c) ∷ []), same_bytes-sym x k, added_last k c m, u)

first_glob-append :
    (fnmatch : List ℕ → List ℕ → Bool) (uri : List ℕ) (m n : Creators)
    → first_glob fnmatch uri (m ++ n)
      ≡ elim (first_glob fnmatch uri m) [ none ↦ first_glob fnmatch uri n | some c ↦ some c ]
unfolding first_glob
first_glob-append fnmatch uri [] n = refl
first_glob-append fnmatch uri ((x, d) ∷ m) n = ground (arith, first_glob-append fnmatch uri m n)

-- The calls that change a dispatcher.
pub data Call : Type 0 where
  creator_added glob_added : List ℕ → ServletCreator → Call
  servlet_deleted glob_deleted : List ℕ → Call
  default_set : Option Servlet → Call

abbrev pub run : Call → ServletDispatch → ServletDispatch
run (creator_added uri c) d = add_servlet_creator d uri c
run (glob_added uri c) d = add_glob_servlet_creator d uri c
run (servlet_deleted uri) d = del_servlet d uri
run (glob_deleted uri) d = del_glob_servlet d uri
run (default_set slt) d = set_default d slt

abbrev pub run_all : List Call → ServletDispatch → ServletDispatch
run_all [] d = d
run_all (c ∷ calls) d = run_all calls (run c d)

abbrev pub IsValid : ServletDispatch → Type 0
IsValid d = Unique d.datas × Unique d.globs

run-IsValid : (c : Call) (d : ServletDispatch) → IsValid d → IsValid (run c d)
unfolding add_servlet_creator add_glob_servlet_creator del_servlet del_glob_servlet set_default
run-IsValid (creator_added uri c) d (u, g) = (with_entry-Unique uri c d.datas u, g)
run-IsValid (glob_added uri c) d (u, g) = (
  u,
  added_last uri c (without uri d.globs)
      (ground (arith, entry-without uri uri d.globs g, same_bytes_refl uri))
      (without-Unique uri d.globs g),
)
run-IsValid (servlet_deleted uri) d (u, g) = (without-Unique uri d.datas u, g)
run-IsValid (glob_deleted uri) d (u, g) = (u, without-Unique uri d.globs g)
run-IsValid (default_set slt) d v = v

run_all-IsValid : (calls : List Call) (d : ServletDispatch) → IsValid d → IsValid (run_all calls d)
run_all-IsValid [] d v = v
run_all-IsValid (c ∷ calls) d v = run_all-IsValid calls (run c d) (run-IsValid c d v)

-- Whatever servlets are added and deleted, no uri and no pattern has two entries.
pub servlets_unique : (calls : List Call) → IsValid (run_all calls new_dispatch)
unfolding new_dispatch
servlets_unique calls = run_all-IsValid calls new_dispatch (tt, tt)

-- What a path is matched with, after each kind of change. A servlet added for a uri is matched by
-- exactly that path, and other paths as before; one deleted leaves its uri to the patterns and the
-- default. A pattern that is added goes behind all others, so that it is matched by a path that has no
-- servlet of its own and that no other pattern matches; one that is deleted leaves its paths to the other
-- patterns and the default, and no other pattern is lost.
pub matched_after :
    (fnmatch : List ℕ → List ℕ → Bool) (d : ServletDispatch) (uri path pattern : List ℕ)
    (c : ServletCreator)
    → IsValid d
    → (get_matched_servlet fnmatch (add_servlet_creator d uri c) path ≡ (
        if same_bytes uri path then some (creator_get c) else get_matched_servlet fnmatch d path))
      × (get_matched_servlet fnmatch (del_servlet d uri) path ≡ (
          if same_bytes uri path
          then get_matched_servlet fnmatch (record d { datas = [] }) path
          else get_matched_servlet fnmatch d path))
      × (get_matched_servlet fnmatch (add_glob_servlet_creator d uri c) path
          ≡ (elim (get_servlet d path) [
            | some slt ↦ some slt
            | none ↦ elim (first_glob fnmatch path (without uri d.globs)) [
              | some other ↦ some (creator_get other)
              | none ↦ if fnmatch uri path then some (creator_get c) else d.fallback
            ]
          ]))
      × (get_matched_servlet fnmatch (del_glob_servlet d uri) path ≡ (elim (get_servlet d path) [
        | some slt ↦ some slt
        | none ↦ elim (first_glob fnmatch path (without uri d.globs)) [
          | some other ↦ some (creator_get other)
          | none ↦ d.fallback
        ]
      ]))
      × (entry pattern (without uri d.globs)
          ≡ (if same_bytes uri pattern then none else entry pattern d.globs))
unfolding add_servlet_creator add_glob_servlet_creator del_servlet del_glob_servlet
    get_matched_servlet get_servlet first_glob entry
matched_after fnmatch d uri path pattern c (u, g) = (
  ground (arith, entry-with_entry path uri c d.datas),
  ground (arith, entry-without path uri d.datas u),
  ground (arith, first_glob-append fnmatch path (without uri d.globs) ((uri, c) ∷ [])),
  ground arith,
  entry-without pattern uri d.globs g,
)

-- The servlet of a pattern, after a pattern is added or deleted.
pub glob_after :
    (d : ServletDispatch) (uri other : List ℕ) (c : ServletCreator)
    → IsValid d
    → (get_glob_servlet (add_glob_servlet_creator d uri c) other
        ≡ (if same_bytes uri other then some (creator_get c) else get_glob_servlet d other))
      × (get_glob_servlet (del_glob_servlet d uri) other
          ≡ (if same_bytes uri other then none else get_glob_servlet d other))
unfolding add_glob_servlet_creator del_glob_servlet get_glob_servlet entry
glob_after d uri other c (u, g) = (
  ground (
    arith,
    entry-append other (without uri d.globs) ((uri, c) ∷ []),
    entry-without other uri d.globs g,
  ),
  ground (arith, entry-without other uri d.globs g),
)
