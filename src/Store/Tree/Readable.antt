-- ===== src/Store/Tree/Readable.antt =====
-- readableDirectories of internal/store/sqlite/store.go marks every directory that the caller can
-- walk to.
use configfs.Prelude.{
  suc, ◌+◌, ◌≤◌, ◌≡◌, ◌≢◌, ◌⊎◌, refl, sym, ap, ◌∙◌, subst, inl, inr, Bool, true, false, ◌&&◌, List,
  [], ◌∷◌, ◌++◌, Memᴰ, arith, ltb, length, length-append, Bool-cases,
}
use configfs.Strings.{Text, root, slash, text_eq, join, count_slashes}
use configfs.Strings.Laws.{eq_of_text_eq, text_eq_refl}
use configfs.Proto.{acl_read, Directory, full_path_of, full_path, directory_allows}
use configfs.Store.Tree.{
  PathMap, get_path, depth_of, insert_by_depth, sort_by_depth, mark_readable, readable_roots,
  readable_directories,
}
use configfs.Store.Tree.Safety.{mem_of_insert, mem_of_sort}
use configfs.Store.Tree.Depth.{length_positive, full_path-not_empty}

-- A directory as CreateDirectory makes them: with a path and a name.
pub record IsPlain (d : Directory) : Type 0 where
  pub rooted : d.path ≢ []
  pub named : d.name ≢ []

-- Directories that a path names one by one.
pub record ArePlain (ds : List Directory) : Type 0 where
  pub plain : (d : Directory) → Memᴰ d ds → IsPlain d
  pub unique : (d e : Directory) → Memᴰ d ds → Memᴰ e ds → full_path d ≡ full_path e → d ≡ e

count_slashes-append : (s t : Text) → count_slashes (s ++ t) ≡ count_slashes s + count_slashes t
unfolding count_slashes
count_slashes-append [] t = omega arith
count_slashes-append (c ∷ s) t = ground (arith, count_slashes-append s t)

root_or_join :
    (d : Directory)
    → IsPlain d
    → ((d.path ≡ root) × (full_path d ≡ slash ∷ d.name)) ⊎ (full_path d ≡ d.path ++ slash ∷ d.name)
unfolding full_path full_path_of join
root_or_join d p = elim (Bool-cases (text_eq d.path [])) [
  | inl empty ↦ absurd (p.rooted (eq_of_text_eq d.path [] empty))
  | inr some_path ↦ elim (Bool-cases (text_eq d.path root)) [
    | inl at_root ↦ inl (eq_of_text_eq d.path root at_root, rw (some_path, at_root) refl)
    | inr below ↦ inr (rw (some_path, below) refl)
  ]
]

-- A directory is below the root, and deeper than the path that it is in, if this is not the root.
full_path-root : (d : Directory) → IsPlain d → full_path d ≢ root
full_path-root d p e = elim (root_or_join d p) [
  | inl (at, q) ↦
      let one : length (slash ∷ d.name) ≡ 1 = ap length (sym q ∙ e) in
      absurd (omega (arith, length_positive d.name p.named))
  | inr q ↦
      let one : length (d.path ++ slash ∷ d.name) ≡ 1 = ap length (sym q ∙ e) in
      absurd (
        omega (
          arith,
          length_positive d.name p.named,
          length_positive d.path p.rooted,
          length-append d.path (slash ∷ d.name),
        ))
]

deeper : (d x : Directory) → IsPlain d → IsPlain x → depth_of d ≤ depth_of x → full_path x ≢ d.path
unfolding depth_of
deeper d x p q le e = elim (root_or_join d p) [
  | inl (at, _) ↦ full_path-root x q (e ∙ at)
  | inr below ↦
      let one : count_slashes (full_path d)
          ≡ count_slashes d.path + count_slashes (slash ∷ d.name) =
        ap count_slashes below ∙ count_slashes-append d.path (slash ∷ d.name) in
      let two : count_slashes (full_path x) ≡ count_slashes d.path = ap count_slashes e in
      let more : count_slashes (slash ∷ d.name) ≡ suc (count_slashes d.name) =
        unfold count_slashes in refl in
      absurd (omega (arith, one, two, more, le))
]

-- From the shallowest to the deepest.
IsAscending : List Directory → Type 0
IsAscending [] = Unit
IsAscending (d ∷ ds) = ((x : Directory) → Memᴰ x ds → depth_of d ≤ depth_of x) × IsAscending ds

mem-insert :
    (d e : Directory) (ds : List Directory) → Memᴰ d (e ∷ ds) → Memᴰ d (insert_by_depth e ds)
unfolding insert_by_depth
mem-insert d e [] m = m
mem-insert d e (f ∷ ds) m = elim (Bool-cases (ltb (depth_of f) (depth_of e))) [
  | inl before ↦ rw before (elim m [
    | Memᴰ.head p ↦ Memᴰ.tail (mem-insert d e ds (Memᴰ.head p))
    | Memᴰ.tail i ↦ elim i [
      | Memᴰ.head p ↦ Memᴰ.head p
      | Memᴰ.tail j ↦ Memᴰ.tail (mem-insert d e ds (Memᴰ.tail j))
    ]
  ])
  | inr here ↦ rw here m
]

mem-sort : (d : Directory) (ds : List Directory) → Memᴰ d ds → Memᴰ d (sort_by_depth ds)
unfolding sort_by_depth
mem-sort d [] m = m
mem-sort d (e ∷ ds) (Memᴰ.head p) = mem-insert d e (sort_by_depth ds) (Memᴰ.head p)
mem-sort d (e ∷ ds) (Memᴰ.tail i) = mem-insert d e (sort_by_depth ds) (Memᴰ.tail (mem-sort d ds i))

insert-IsAscending :
    (e : Directory) (ds : List Directory) → IsAscending ds → IsAscending (insert_by_depth e ds)
unfolding insert_by_depth IsAscending
insert-IsAscending e [] a = ((λ x m. elim m [ ]), tt)
insert-IsAscending e (f ∷ ds) (low, a) = elim (Bool-cases (ltb (depth_of f) (depth_of e))) [
  | inl before ↦ rw before (
    (λ x m. elim (mem_of_insert x e ds m) [
      | Memᴰ.head p ↦ rw p (ground (arith, before))
      | Memᴰ.tail i ↦ low x i
    ]),
    insert-IsAscending e ds a,
  )
  | inr here ↦ rw here (
    (λ x m. elim m [
      | Memᴰ.head p ↦ rw p (ground (arith, here))
      | Memᴰ.tail i ↦ ground (arith, here, low x i)
    ]),
    (low, a),
  )
]

sort-IsAscending : (ds : List Directory) → IsAscending (sort_by_depth ds)
unfolding sort_by_depth IsAscending
sort-IsAscending [] = tt
sort-IsAscending (d ∷ ds) = insert-IsAscending d (sort_by_depth ds) (sort-IsAscending ds)

text_eq-apart : (s t : Text) → s ≢ t → text_eq s t ≡ false
text_eq-apart s t h = elim (Bool-cases (text_eq s t)) [
  | inl same ↦ absurd (h (eq_of_text_eq s t same))
  | inr other ↦ other
]

module _ (tags : List Text) where
  abbrev entry : Directory → PathMap → Text × Bool
  entry d m = (full_path d, get_path d.path m && directory_allows tags acl_read d.acls)

  get-entry-apart :
      (d : Directory) (m : PathMap) (k : Text)
      → full_path d ≢ k
      → get_path k (entry d m ∷ m) ≡ get_path k m
  unfolding get_path
  get-entry-apart d m k h = rw (text_eq-apart (full_path d) k h) refl

  get-entry-own :
      (d : Directory) (m : PathMap)
      → get_path (full_path d) (entry d m ∷ m)
        ≡ (get_path d.path m && directory_allows tags acl_read d.acls)
  unfolding get_path
  get-entry-own d m = rw (text_eq_refl (full_path d)) refl

  untouched :
      (k : Text) (ds : List Directory) (m : PathMap)
      → ((x : Directory) → Memᴰ x ds → full_path x ≢ k)
      → get_path k (mark_readable tags m ds) ≡ get_path k m
  unfolding mark_readable
  untouched k [] m h = refl
  untouched k (d ∷ ds) m h =
      untouched k ds (entry d m ∷ m) (λ x i. h x (Memᴰ.tail i))
      ∙ get-entry-apart d m k (h d (Memᴰ.head refl))

  module _ (e : Directory) (allowed : directory_allows tags acl_read e.acls ≡ true) where
    -- An open directory stays open: only itself comes again under its path.
    stays :
        (ds : List Directory) (m : PathMap)
        → ((x : Directory) → Memᴰ x ds → full_path x ≡ full_path e → x ≡ e)
        → ((x : Directory) → Memᴰ x ds → full_path x ≢ e.path)
        → get_path e.path m ≡ true
        → get_path (full_path e) m ≡ true
        → get_path (full_path e) (mark_readable tags m ds) ≡ true
    unfolding mark_readable
    stays [] m own apart above here = here
    stays (d ∷ ds) m own apart above here =
        stays ds (entry d m ∷ m) (λ x i. own x (Memᴰ.tail i)) (λ x i. apart x (Memᴰ.tail i))
          (get-entry-apart d m e.path (apart d (Memᴰ.head refl)) ∙ above)
          (elim (Bool-cases (text_eq (full_path d) (full_path e))) [
            | inl same ↦
                let again = own d (Memᴰ.head refl) (eq_of_text_eq _ _ same) in
                subst (λ x. get_path (full_path e) (entry x m ∷ m) ≡ true) (sym again)
                  (get-entry-own e m ∙ ground (arith, above, allowed))
            | inr other ↦ (unfold get_path in rw other here)
          ])

  marked :
      (ds : List Directory) (m : PathMap)
      → IsAscending ds
      → ((x : Directory) → Memᴰ x ds → IsPlain x)
      → ((x y : Directory) → Memᴰ x ds → Memᴰ y ds → full_path x ≡ full_path y → x ≡ y)
      → (d : Directory) → Memᴰ d ds
      → directory_allows tags acl_read d.acls ≡ true
      → get_path d.path (mark_readable tags m ds) ≡ true
      → get_path (full_path d) (mark_readable tags m ds) ≡ true
  unfolding mark_readable IsAscending
  marked [] m a plain unique d i allowed h = elim i [ ]
  marked (e ∷ es) m (low, a) plain unique d (Memᴰ.tail i) allowed h =
      marked es (entry e m ∷ m) a (λ x j. plain x (Memᴰ.tail j))
        (λ x y j k. unique x y (Memᴰ.tail j) (Memᴰ.tail k)) d i allowed h
  marked (e ∷ es) m (low, a) plain unique d (Memᴰ.head p) allowed h =
      let e_plain = plain e (Memᴰ.head refl) in
      let apart : (x : Directory) → Memᴰ x es → full_path x ≢ e.path =
        λ x j. deeper e x e_plain (plain x (Memᴰ.tail j)) (low x j) in
      let own_apart : full_path e ≢ e.path = deeper e e e_plain e_plain (omega arith) in
      let e_allowed : directory_allows tags acl_read e.acls ≡ true =
        subst (λ (x : Directory). directory_allows tags acl_read x.acls ≡ true) p allowed in
      let e_h : get_path e.path (mark_readable tags (entry e m ∷ m) es) ≡ true =
        subst (λ (x : Directory). get_path x.path (mark_readable tags (entry e m ∷ m) es) ≡ true) p
          h in
      let above1 : get_path e.path (entry e m ∷ m) ≡ true =
        sym (untouched e.path es (entry e m ∷ m) apart) ∙ e_h in
      let above : get_path e.path m ≡ true = sym (get-entry-apart e m e.path own_apart) ∙ above1 in
      subst
        (λ (x : Directory). get_path (full_path x) (mark_readable tags (entry e m ∷ m) es) ≡ true)
        (sym p)
        (stays e e_allowed es (entry e m ∷ m) (λ x j q. unique x e (Memᴰ.tail j) (Memᴰ.head refl) q)
          apart above1 (get-entry-own e m ∙ ground (arith, above, e_allowed)))

-- A directory that grants READ, in a path that is marked, is marked.
pub readable-below :
    (tags : List Text) (dirs : List Directory) (d : Directory)
    → ArePlain dirs
    → Memᴰ d dirs
    → directory_allows tags acl_read d.acls ≡ true
    → get_path d.path (readable_directories dirs tags) ≡ true
    → get_path (full_path d) (readable_directories dirs tags) ≡ true
unfolding readable_directories
readable-below tags dirs d p i allowed h =
    marked tags (sort_by_depth dirs) readable_roots (sort-IsAscending dirs)
      (λ x j. p.plain x (mem_of_sort x dirs j))
      (λ x y j k. p.unique x y (mem_of_sort x dirs j) (mem_of_sort y dirs k)) d (mem-sort d dirs i)
      allowed h

-- So is the root, under both of its spellings.
pub readable-at_root :
    (tags : List Text) (dirs : List Directory) (path : Text)
    → ArePlain dirs
    → (path ≡ []) ⊎ (path ≡ root)
    → get_path path (readable_directories dirs tags) ≡ true
unfolding readable_directories text_eq
readable-at_root tags dirs path p at =
    untouched tags path (sort_by_depth dirs) readable_roots (λ x i e. elim at [
      | inl empty ↦ full_path-empty x (e ∙ empty)
      | inr top ↦ full_path-root x (p.plain x (mem_of_sort x dirs i)) (e ∙ top)
    ])
    ∙ (elim at [
      | inl empty ↦ rw empty (unfold get_path in refl)
      | inr top ↦ rw top (unfold get_path in refl)
    ])
  where
    full_path-empty : (x : Directory) → full_path x ≢ []
    full_path-empty x e =
        let none_there : length (full_path x) ≡ 0 = ap length e in
        omega (arith, full_path-not_empty x)
