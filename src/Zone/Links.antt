-- ===== src/Zone/Links.antt =====
-- The queues that the files of a zone should stand in, computed from the files' own links.
use ngx_cache_pilot.Base.{
  remove_first, Bytes, Bool, true, false, ◌≡◌, refl, sym, ap, ap₂, ◌∙◌, ◌==ᵇ◌, ==ᵇ_sound, ==ᵇ_refl,
  inl, inr, Option, none, some, some-inj, List, [], ◌∷◌, ◌++◌, if◌then◌else◌, append-nil,
  append_assoc, arith, Bool-cases, true-ne-false, subst,
}
use ngx_cache_pilot.Zone.{File, write_file, file_of}

-- A file with the path is in the queue.
abbrev pub has_file : Bytes → List File → Bool
has_file p [] = false
has_file p (f ∷ fs) = if f.path ==ᵇ p then true else has_file p fs

abbrev pub has_path : Bytes → List Bytes → Bool
has_path p [] = false
has_path p (q ∷ qs) = if q ==ᵇ p then true else has_path p qs

abbrev pub UniquePaths : List File → Type 0
UniquePaths [] = Unit
UniquePaths (f ∷ fs) = (has_file f.path fs ≡ false) × UniquePaths fs

-- The path, once for each link to the entry.
abbrev pub copies : Bytes → List Bytes → Bytes → List Bytes
copies t [] p = []
copies t (u ∷ us) p = if t ==ᵇ u then p ∷ copies t us p else copies t us p

abbrev pub entry_links : Option Bytes → List Bytes
entry_links none = []
entry_links (some k) = k ∷ []

abbrev pub key_links : File → List Bytes
key_links f = entry_links f.key_entry

abbrev pub tag_links : File → List Bytes
tag_links f = f.tag_members

abbrev pub without : Bytes → List File → List File
without p = remove_first (λ x. x.path ==ᵇ p)

copies-append :
    (t : Bytes) (us vs : List Bytes) (p : Bytes)
    → copies t (us ++ vs) p ≡ copies t us p ++ copies t vs p
copies-append t [] vs p = refl
copies-append t (u ∷ us) vs p = ground (arith, copies-append t us vs p)

has_path-copies :
    (t : Bytes) (us : List Bytes) (p q : Bytes)
    → (p ==ᵇ q) ≡ false
    → has_path q (copies t us p) ≡ false
has_path-copies t [] p q d = refl
has_path-copies t (u ∷ us) p q d = ground (arith, has_path-copies t us p q d)

remove_first-append :
    (p : Bytes) (xs ys : List Bytes)
    → has_path p xs ≡ false
    → remove_first (λ q. q ==ᵇ p) (xs ++ ys) ≡ xs ++ remove_first (λ q. q ==ᵇ p) ys
remove_first-append p [] ys h = refl
remove_first-append p (x ∷ xs) ys h = ground (arith, remove_first-append p xs ys)

pub has_file-write_file :
    (p : Bytes) (g : File → File) (q : Bytes) (fs : List File)
    → ((f : File) → (g f).path ≡ f.path)
    → has_file q (write_file p g fs) ≡ has_file q fs
has_file-write_file p g q [] k = refl
has_file-write_file p g q (f ∷ fs) k = ground (arith, k f, has_file-write_file p g q fs k)

pub UniquePaths-write_file :
    (p : Bytes) (g : File → File) (fs : List File)
    → ((f : File) → (g f).path ≡ f.path)
    → UniquePaths fs
    → UniquePaths (write_file p g fs)
UniquePaths-write_file p g [] k u = tt
UniquePaths-write_file p g (f ∷ fs) k (u, us) = (head, UniquePaths-write_file p g fs k us)
  where
    head : has_file (if f.path ==ᵇ p then g f else f).path (write_file p g fs) ≡ false
    head =
        ground
          (arith, k f, has_file-write_file p g f.path fs k, has_file-write_file p g (g f).path fs k)

pub has_path-append :
    (p : Bytes) (xs ys : List Bytes)
    → has_path p (xs ++ ys) ≡ (if has_path p xs then true else has_path p ys)
has_path-append p [] ys = refl
has_path-append p (x ∷ xs) ys = ground (arith, has_path-append p xs ys)

pub write_file_missing :
    (p : Bytes) (g : File → File) (fs : List File) → has_file p fs ≡ false → write_file p g fs ≡ fs
write_file_missing p g [] h = refl
write_file_missing p g (f ∷ fs) h = ground (arith, write_file_missing p g fs)

-- A write at the last file.
pub write_file-last :
    (g : File → File) (fs : List File) (f : File)
    → has_file f.path fs ≡ false
    → write_file f.path g (fs ++ f ∷ []) ≡ fs ++ g f ∷ []
write_file-last g [] f h = rw (==ᵇ_refl f.path)
write_file-last g (x ∷ fs) f h = elim (Bool-cases (x.path ==ᵇ f.path)) [
  | inl hit ↦ absurd (true-ne-false (sym (ground (arith, hit)) ∙ h))
  | inr miss ↦ rw miss (ap (◌∷◌ x) (write_file-last g fs f (rw miss at h)))
]

pub without-write_file :
    (p : Bytes) (g : File → File) (fs : List File)
    → UniquePaths fs
    → ((f : File) → (g f).path ≡ f.path)
    → without p (write_file p g fs) ≡ without p fs
without-write_file p g [] u k = refl
without-write_file p g (f ∷ fs) (u, us) k = elim (Bool-cases (f.path ==ᵇ p)) [
  | inl hit ↦ rw hit (hit_path hit)
  | inr miss ↦ rw (miss, miss) (ap (◌∷◌ f) (without-write_file p g fs us k))
]
  where
    hit_path : (f.path ==ᵇ p) ≡ true → without p (g f ∷ write_file p g fs) ≡ fs
    hit_path hit = ground (
      arith,
      hit,
      ap (λ t. t ==ᵇ p) (k f),
      write_file_missing p g fs (subst (λ q. has_file q fs ≡ false) (==ᵇ_sound f.path p hit) u),
    )

pub file_of-write_file :
    (p : Bytes) (g : File → File) (fs : List File) (f : File)
    → ((x : File) → (g x).path ≡ x.path)
    → file_of p fs ≡ some f
    → file_of p (write_file p g fs) ≡ some (g f)
file_of-write_file p g [] f k e = cc
file_of-write_file p g (x ∷ fs) f k e = elim (Bool-cases (x.path ==ᵇ p)) [
  | inl hit ↦ rw hit (hit_path hit)
  | inr miss ↦ rw (miss, miss) (file_of-write_file p g fs f k (rw miss at e))
]
  where
    hit_path : (x.path ==ᵇ p) ≡ true → file_of p (g x ∷ write_file p g fs) ≡ some (g f)
    hit_path hit = ground (arith, hit, ap (λ t. t ==ᵇ p) (k x), ap g (some-inj (rw hit at e)))

pub file_of-path : (p : Bytes) (fs : List File) (f : File) → file_of p fs ≡ some f → f.path ≡ p
file_of-path p [] f e = cc
file_of-path p (x ∷ fs) f e = elim (Bool-cases (x.path ==ᵇ p)) [
  | inl hit ↦ subst (λ y. y.path ≡ p) (some-inj (rw hit at e)) (==ᵇ_sound x.path p hit)
  | inr miss ↦ file_of-path p fs f (rw miss at e)
]

module _ (links : File → List Bytes) where
  abbrev pub linked : Bytes → List File → List Bytes
  linked t [] = []
  linked t (f ∷ fs) = copies t (links f) f.path ++ linked t fs

  pub linked-append :
      (t : Bytes) (fs gs : List File) → linked t (fs ++ gs) ≡ linked t fs ++ linked t gs
  linked-append t [] gs = refl
  linked-append t (f ∷ fs) gs =
      rw (linked-append t fs gs)
        (sym (append_assoc (copies t (links f) f.path) (linked t fs) (linked t gs)))

  -- A write that leaves the path and the links alone.
  pub linked-write_file :
      (t p : Bytes) (g : File → File) (fs : List File)
      → ((f : File) → (g f).path ≡ f.path)
      → ((f : File) → links (g f) ≡ links f)
      → linked t (write_file p g fs) ≡ linked t fs
  linked-write_file t p g [] k l = refl
  linked-write_file t p g (f ∷ fs) k l = elim (Bool-cases (f.path ==ᵇ p)) [
    | inl hit ↦ rw hit (ap₂ ◌++◌ (ap₂ (copies t) (l f) (k f)) (linked-write_file t p g fs k l))
    | inr miss ↦ rw (miss, linked-write_file t p g fs k l)
  ]

  -- The path of no file stands in no queue.
  pub has_path-linked :
      (t p : Bytes) (fs : List File) → has_file p fs ≡ false → has_path p (linked t fs) ≡ false
  has_path-linked t p [] h = refl
  has_path-linked t p (f ∷ fs) h =
      rw has_path-append
        (ground (arith, has_path-copies t (links f) f.path p, has_path-linked t p fs))

  -- A file without links stands in no queue: taking it out changes none.
  pub linked-without :
      (t p : Bytes) (fs : List File) (f : File)
      → file_of p fs ≡ some f
      → links f ≡ []
      → linked t (without p fs) ≡ linked t fs
  linked-without t p [] f e l = cc
  linked-without t p (x ∷ fs) f e l = elim (Bool-cases (x.path ==ᵇ p)) [
    | inl hit ↦ rw (hit, links_of (some-inj (rw hit at e))) refl
    | inr miss ↦ rw (miss, linked-without t p fs f (rw miss at e) l)
  ]
    where
      links_of : x ≡ f → links x ≡ []
      links_of q = ap links q ∙ l

  unlink_here :
      (t p u : Bytes) (rest : List Bytes) (g : File → File) (f : File) (ls : List Bytes)
      → (f.path ==ᵇ p) ≡ true
      → links f ≡ u ∷ rest
      → (g f).path ≡ f.path
      → links (g f) ≡ rest
      → copies t (links (if f.path ==ᵇ p then g f else f)) (if f.path ==ᵇ p then g f else f).path
          ++ ls
        ≡ (if t ==ᵇ u
            then remove_first (λ q. q ==ᵇ p) (copies t (links f) f.path ++ ls)
            else copies t (links f) f.path ++ ls)
  unlink_here t p u rest g f ls hit l k r =
      rw (hit, l) (ap₂ (λ us q. copies t us q ++ ls) r k ∙ ground (arith, hit))

  -- The first link of a file is taken out.
  pub linked-unlink :
      (t p u : Bytes) (rest : List Bytes) (g : File → File) (fs : List File) (f : File)
      → UniquePaths fs
      → file_of p fs ≡ some f
      → links f ≡ u ∷ rest
      → ((x : File) → (g x).path ≡ x.path)
      → links (g f) ≡ rest
      → linked t (write_file p g fs)
        ≡ (if t ==ᵇ u then remove_first (λ q. q ==ᵇ p) (linked t fs) else linked t fs)
  linked-unlink t p u rest g [] f un e l k r = cc
  linked-unlink t p u rest g (x ∷ fs) f (ux, un) e l k r = elim (Bool-cases (x.path ==ᵇ p)) [
    | inl hit ↦ here hit (some-inj (rw hit at e))
    | inr miss ↦
        rw (miss, linked-unlink t p u rest g fs f un (rw miss at e) l k r)
          (elim (Bool-cases (t ==ᵇ u)) [
            | inl same ↦ rw same (
                sym (
                  remove_first-append p (copies t (links x) x.path) (linked t fs)
                    (has_path-copies t (links x) x.path p miss)))
            | inr other ↦ rw other
          ])
  ]
    where
      here :
          (x.path ==ᵇ p) ≡ true
          → x ≡ f
          → linked t (write_file p g (x ∷ fs)) ≡ (
              if t ==ᵇ u
              then remove_first (λ q. q ==ᵇ p) (linked t (x ∷ fs))
              else linked t (x ∷ fs))
      here hit same =
          rw
            (write_file_missing p g fs
              (subst (λ q. has_file q fs ≡ false) (==ᵇ_sound x.path p hit) ux))
            (subst
              (λ y.
                copies t (links (if y.path ==ᵇ p then g y else y))
                    (if y.path ==ᵇ p then g y else y).path
                  ++ linked t fs
                ≡ (if t ==ᵇ u
                    then remove_first (λ q. q ==ᵇ p) (copies t (links y) y.path ++ linked t fs)
                    else copies t (links y) y.path ++ linked t fs))
              (sym same)
              (unlink_here t p u rest g f (linked t fs)
                (subst (λ y. (y.path ==ᵇ p) ≡ true) same hit) l (k f) r))

  -- A link is put last, at the last file.
  pub linked-push :
      (t u : Bytes) (g : File → File) (fs : List File) (f : File)
      → (g f).path ≡ f.path
      → links (g f) ≡ links f ++ u ∷ []
      → linked t (fs ++ g f ∷ [])
        ≡ (if t ==ᵇ u then linked t (fs ++ f ∷ []) ++ f.path ∷ [] else linked t (fs ++ f ∷ []))
  linked-push t u g fs f k l =
      rw (linked-append t fs (g f ∷ []), linked-append t fs (f ∷ []))
        (ap (λ z. linked t fs ++ (z ++ []))
            (ap₂ (copies t) l k ∙ copies-append t (links f) (u ∷ []) f.path)
          ∙ tail (copies t (links f) f.path))
    where
      tail :
          (c : List Bytes)
          → linked t fs ++ ((c ++ (if t ==ᵇ u then f.path ∷ [] else [])) ++ []) ≡ (
              if t ==ᵇ u
              then (linked t fs ++ (c ++ [])) ++ f.path ∷ []
              else linked t fs ++ (c ++ []))
      tail c = elim (Bool-cases (t ==ᵇ u)) [
        | inl same ↦ rw same (simp (append-nil, append_assoc))
        | inr other ↦ rw other (simp append-nil)
      ]
