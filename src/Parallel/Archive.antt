-- ===== src/Parallel/Archive.antt =====
-- The archive of a worker's files, unpacked (src/benchmarkservice/parallel.py, `extract_archive`,
-- `extract_archive_file`).
use Prim.Native.Char.{code}
use microservices_demo_nats.Prelude.{
  String, ◌≡◌, refl, ap, sym, ◌∙◌, Bool, true, false, ◌||◌, inl, inr, List, [], ◌∷◌, ◌++◌, ◌==◌,
  elem, elem-append, str_eq, Bool-cases, if◌then◌else◌, Result, ok, err,
}

-- The text up to the first `/`, and the segments after it.
unfoldable pub split_path : String → String × List String
split_path String.[] = (String.[], [])
split_path (String.◌∷◌ c s) =
    let rest = split_path s in
    if code c == b'/' then (String.[], rest.0 ∷ rest.1) else (String.◌∷◌ c rest.0, rest.1)

abbrev pub without_dots : List String → List String
without_dots [] = []
without_dots (p ∷ ps) =
    let rest = without_dots ps in if str_eq p "" || str_eq p "." then rest else p ∷ rest

-- `Path(name).parts` of a relative path
unfoldable pub parts_of : String → List String
parts_of name = without_dots ((split_path name).0 ∷ (split_path name).1)

-- `Path(name).is_absolute()`
abbrev pub is_absolute : String → Bool
is_absolute String.[] = false
is_absolute (String.◌∷◌ c s) = code c == b'/'

pub record Member : Type 0 where
  pub filename : String
  pub content : String

pub record Unpacked : Type 0 where
  pub path : List String
  pub content : String

pub data ArchiveError : Type 0 where
  unsafe_path : String → ArchiveError

unfoldable pub is_unsafe : String → Bool
is_unsafe name = is_absolute name || elem ".." (parts_of name)

unfoldable pub extract_all : List String → List Member → List Unpacked
extract_all destination [] = []
extract_all destination (m ∷ ms) =
    record { path = destination ++ parts_of m.filename; content = m.content }
    ∷ extract_all destination ms

-- All names are looked at before a file is written.
unfoldable pub check_members : List Member → Result ArchiveError (Unit {0})
check_members [] = ok tt
check_members (m ∷ ms) =
    let rest = check_members ms in
    if is_unsafe m.filename then err (unsafe_path m.filename) else rest

unfoldable pub extract_archive : List Member → List String → Result ArchiveError (List Unpacked)
extract_archive members destination = elim (check_members members) [
  | ok _ ↦ ok (extract_all destination members)
  | err e ↦ err e
]

abbrev without_last : List String → List String
without_last [] = []
without_last (p ∷ []) = []
without_last (p ∷ q ∷ ps) = p ∷ without_last (q ∷ ps)

-- The directory that a path leads to, walked from `done` on.
unfoldable pub walk : List String → List String → List String
walk done [] = done
walk done (p ∷ ps) =
    let up = walk (without_last done) ps in
    let down = walk (done ++ p ∷ []) ps in if str_eq p ".." then up else down

append_one : (xs ys : List String) (p : String) → (xs ++ p ∷ []) ++ ys ≡ xs ++ p ∷ ys
append_one [] ys p = refl
append_one (x ∷ xs) ys p = ap (λ l. x ∷ l) (append_one xs ys p)

append_none : (xs : List String) → xs ++ [] ≡ xs
append_none [] = refl
append_none (x ∷ xs) = ap (λ l. x ∷ l) (append_none xs)

or-false : (a b : Bool) → (a || b) ≡ false → (a ≡ false) × (b ≡ false)
or-false true b h = absurd (cc)
or-false false b h = (refl, h)

walk_down : (done ps : List String) → elem ".." ps ≡ false → walk done ps ≡ done ++ ps
unfolding walk
walk_down done [] h = sym (append_none done)
walk_down done (p ∷ ps) h =
    let (other, rest) = or-false (str_eq p "..") (elem ".." ps) h in
    rw other (walk_down (done ++ p ∷ []) ps rest ∙ append_one done ps p)

pub record IsBelow (destination path : List String) : Type 0 where
  pub inner : List String
  pub joined : path ≡ destination ++ inner

abbrev pub AllBelow : List String → List Unpacked → Type 0
AllBelow destination [] = Unit
AllBelow destination (u ∷ us) = IsBelow destination (walk [] u.path) × AllBelow destination us

unsafe-parts : (name : String) → is_unsafe name ≡ false → elem ".." (parts_of name) ≡ false
unfolding is_unsafe
unsafe-parts name h = (or-false (is_absolute name) (elem ".." (parts_of name)) h).1

files_injective :
    (a b : List Unpacked) → ◌≡◌ {A = Result ArchiveError (List Unpacked)} (ok a) (ok b) → a ≡ b
files_injective a b h = cc

module _ (destination : List String) (plain : elem ".." destination ≡ false) where
  member-IsBelow :
      (name : String)
      → is_unsafe name ≡ false
      → IsBelow destination (walk [] (destination ++ parts_of name))
  member-IsBelow name h = record {
    inner = parts_of name;
    joined =
        walk_down [] (destination ++ parts_of name)
          (elem-append ".." destination (parts_of name) ∙ rw plain (unsafe-parts name h));
  }

  extract_all-AllBelow :
      (members : List Member)
      → check_members members ≡ ok tt
      → AllBelow destination (extract_all destination members)
  unfolding check_members extract_all
  extract_all-AllBelow [] h = tt
  extract_all-AllBelow (m ∷ ms) h = elim (Bool-cases (is_unsafe m.filename)) [
    | inl e ↦ absurd (cc (rw e at h))
    | inr e ↦ (member-IsBelow m.filename e, extract_all-AllBelow ms (rw e at h))
  ]

  -- An archive that is accepted writes no file outside the directory it is unpacked into, wherever
  -- the `..` in its members' names would lead; the directory's own path has no `..`.
  pub extract_archive-AllBelow :
      (members : List Member) (files : List Unpacked)
      → extract_archive members destination ≡ ok files
      → AllBelow destination files
  unfolding extract_archive
  extract_archive-AllBelow members files h = go (check_members members) refl
    where
      go :
          (r : Result ArchiveError (Unit {0}))
          → check_members members ≡ r
          → AllBelow destination files
      go (ok tt) e =
          let same =
            files_injective (extract_all destination members) files
              (rw (extract_archive, e) at h) in
          rw (← same) (extract_all-AllBelow members e)
      go (err x) e = absurd (cc (rw (extract_archive, e) at h))
