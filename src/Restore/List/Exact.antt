-- ===== src/Restore/List/Exact.antt =====
-- What `getRestoreHandle` of node/getRestore.go sends.
use de_oss.Base.{
  ℕ, zero, suc, ◌≡◌, ◌<>◌, refl, String, true, not, ◌&&◌, ◌||◌, List, [], ◌∷◌, ◌++◌, some, contains,
  contains-append, get_elem?, string_eq, arith, Option-cases, inl, inr,
}
use de_oss.Restore.List.{
  UserFiles, Records, read, owned, without, repeats_at, deleted_from, combine_records, restore_list,
}

contains-without :
    (listed fs : List String) (x : String)
    → contains (without listed fs) x ≡ (contains fs x && not (contains listed x))
unfolding without
contains-without listed [] x = refl
contains-without listed (f ∷ fs) x = ground (arith, contains-without listed fs x)

contains-get_elem? :
    (all : List String) (i : ℕ) {g : String} → get_elem? all i ≡ some g → contains all g ≡ true
contains-get_elem? [] i e = cc
contains-get_elem? (x ∷ all) zero e = ground arith
contains-get_elem? (x ∷ all) (suc i) e = ground (arith, contains-get_elem? all i e)

-- A name is left out only if it is in the other list.
repeats_at-contains :
    (all : List String) (i : ℕ) (f : String) (js : List String)
    → repeats_at all i f js ≡ some true
    → contains all f ≡ true
unfolding repeats_at
repeats_at-contains all i f [] e = cc
repeats_at-contains all i f (j ∷ js) e = elim (Option-cases (get_elem? all i)) [
  | inl n ↦ ground (arith, n)
  | inr (g, s) ↦ ground (arith, s, contains-get_elem? all i s, repeats_at-contains all i f js)
]

contains-deleted_from :
    (all : List String) (i : ℕ) (fs rest : List String) (x : String)
    → deleted_from all i fs ≡ some rest
    → (contains all x || contains rest x) ≡ (contains all x || contains fs x)
unfolding deleted_from
contains-deleted_from all i [] rest x e = ground arith
contains-deleted_from all i (f ∷ fs) rest x e = elim (Option-cases (deleted_from all (suc i) fs)) [
  | inl n ↦ ground (arith, n)
  | inr (more, s) ↦
      ground
        (arith, s, contains-deleted_from all (suc i) fs more x s, repeats_at-contains all i f all)
]

contains-combined :
    (ufs ucs dfs dcs fs : List String) (x : String)
    → deleted_from dfs 0 dcs ≡ some fs
    → contains (without (dfs ++ fs) (ufs ++ without ufs ucs)) x
      ≡ ((contains ufs x || contains ucs x) && not (contains dfs x || contains dcs x))
contains-combined ufs ucs dfs dcs fs x e = ground (
  arith,
  contains-without (dfs ++ fs) (ufs ++ without ufs ucs) x,
  contains-append ufs (without ufs ucs) x,
  contains-without ufs ucs x,
  contains-append dfs fs x,
  contains-deleted_from dfs 0 dcs fs x e,
)

combine_records-exact :
    (account : String) (ufile ucache dfile dcache u : UserFiles) (x : String)
    → owned account ucache ≡ ucache.files
    → owned account ufile ≡ ufile.files
    → owned account dcache ≡ dcache.files
    → owned account dfile ≡ dfile.files
    → combine_records account ufile ucache dfile dcache ≡ some u
    → (u.user ≡ account)
      × (contains u.files x ≡ (
          (contains ufile.files x || contains ucache.files x)
          && not (contains dfile.files x || contains dcache.files x)))
unfolding combine_records
combine_records-exact account ufile ucache dfile dcache u x a b c d e =
    elim (Option-cases (deleted_from dfile.files 0 dcache.files)) [
      | inl n ↦ absurd (ground (arith, n))
      | inr (fs, s) ↦
          ground
            (arith, s, contains-combined ufile.files ucache.files dfile.files dcache.files fs x s)
    ]

-- Let the four records be the user's own, or empty. When the handler answers, a name is in the answer
-- exactly if the directory or the cache lists it as saved and neither lists it as deleted.
pub restore_list-exact :
    (account : String) (r : Records) (u : UserFiles) (x : String)
    → let ucache = read r.decode (r.get ("userfiles:" <> account)) in
      let ufile = read r.decode (r.read_ufile account) in
      let dcache = read r.decode (r.get ("userdeletefiles:" <> account)) in
      let dfile = read r.decode (r.read_dfile account) in
      owned account ucache ≡ ucache.files
      → owned account ufile ≡ ufile.files
      → owned account dcache ≡ dcache.files
      → owned account dfile ≡ dfile.files
      → restore_list account r ≡ some u
      → (u.user ≡ account)
        × (contains u.files x ≡ (
            (contains ufile.files x || contains ucache.files x)
            && not (contains dfile.files x || contains dcache.files x)))
unfolding restore_list
restore_list-exact account r u x a b c d e =
    combine_records-exact account (read r.decode (r.read_ufile account))
      (read r.decode (r.get ("userfiles:" <> account))) (read r.decode (r.read_dfile account))
      (read r.decode (r.get ("userdeletefiles:" <> account))) u x a b c d e
