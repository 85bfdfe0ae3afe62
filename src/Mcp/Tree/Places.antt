-- ===== src/Mcp/Tree/Places.antt =====
-- What the traversal of a tree opens and makes, and where.
use gogeta_fs_ae.Common.{
  ℕ, ◌≡◌, ◌≢◌, refl, ap, sym, subst, ◌∙◌, Bool, true, false, not, some, List, [], ◌∷◌, ◌++◌,
  append-nil, append_assoc, Result, ok, >>=-ok, if◌then◌else◌,
}
use gogeta_fs_ae.Mcp.Link.{handle_symbolic_link}
use gogeta_fs_ae.Mcp.Tree.{
  Name, FilePath, Node, reg, lnk, dir, other, Entries, end_of_dir, entry, Mkdir, made, exists,
  refused, System, Opened, Walk, exit_on, parent, is_dot, opened_at, handle_regular_file, make_link,
  make_dir, close_dst, cp_dir, cp_node,
}

-- What an entry gives, unless it is "." or "..".
abbrev pub unless_dot {ℓ} : {A : Type ℓ} → Bool → List A → List A
unless_dot true l = []
unless_dot false l = l

-- The regular files below a directory, by their paths there and below the destination, and the links.
unfoldable mutual
  pub files_in : (src dst : FilePath) → Entries → List Opened
  files_in src dst end_of_dir = []
  files_in src dst (entry name node rest) =
      unless_dot (is_dot name) (files_of (src ++ name ∷ []) (dst ++ name ∷ []) node)
      ++ files_in src dst rest

  pub files_of : (src dst : FilePath) → Node → List Opened
  files_of src dst (reg size) = record { src = src; dst = some dst; size = size } ∷ []
  files_of src dst (lnk text) = []
  files_of src dst (dir entries) = files_in src dst entries
  files_of src dst other = []

unfoldable mutual
  pub links_in : (dst : FilePath) → Entries → List (FilePath × List ℕ)
  links_in dst end_of_dir = []
  links_in dst (entry name node rest) =
      unless_dot (is_dot name) (links_of (dst ++ name ∷ []) node) ++ links_in dst rest

  pub links_of : (dst : FilePath) → Node → List (FilePath × List ℕ)
  links_of dst (reg size) = []
  links_of dst (lnk text) = (dst, text) ∷ []
  links_of dst (dir entries) = links_in dst entries
  links_of dst other = []

parent-append : (p : FilePath) (n : Name) → parent (p ++ n ∷ []) ≡ p
unfolding parent
parent-append [] n = refl
parent-append (m ∷ []) n = refl
parent-append (m ∷ k ∷ p) n = ap (◌∷◌ m) (parent-append (k ∷ p) n)

-- No call fails.
pub record Works (sys : System) : Type 0 where
  pub opens_src : (p : FilePath) → sys.open_src p ≡ true
  pub opens_dst : (p : FilePath) → sys.open_dst p ≡ true
  pub makes_dirs : (p : FilePath) → sys.mkdir_answer p ≢ refused
  pub reads_links : (p : FilePath) → sys.readlink_fails p ≡ false
  pub makes_links : (p : FilePath) → sys.symlink_fails p ≡ false
  pub changes_dir : (p : FilePath) → sys.chdir_fails p ≡ false

-- From `w` to `w'` the files and links were added, and the working directory is the same.
pub record Visited (w w' : Walk) (new : List Opened) (new_links : List (FilePath × List ℕ))
    : Type 0 where
  pub cwd : w'.cwd ≡ w.cwd
  pub files : w'.files ≡ w.files ++ new
  pub links : w'.links ≡ w.links ++ new_links

Visited-none : (w : Walk) → Visited w w [] []
Visited-none w = record {
  cwd = refl;
  files = sym (append-nil w.files);
  links = sym (append-nil w.links);
}

Visited-both :
    (w w₁ w₂ : Walk) (f₁ f₂ : List Opened) (l₁ l₂ : List (FilePath × List ℕ))
    → Visited w w₁ f₁ l₁
    → Visited w₁ w₂ f₂ l₂
    → Visited w w₂ (f₁ ++ f₂) (l₁ ++ l₂)
Visited-both w w₁ w₂ f₁ f₂ l₁ l₂ u v = record {
  cwd = v.cwd ∙ u.cwd;
  files = v.files ∙ ap (λ l. l ++ f₂) u.files ∙ append_assoc w.files f₁ f₂;
  links = v.links ∙ ap (λ l. l ++ l₂) u.links ∙ append_assoc w.links l₁ l₂;
}

module _ (sys : System) (fuel : ℕ) (stale : List ℕ) where
  -- Every link is copied with its text (see Link/Text).
  unfoldable mutual
    pub FitIn : Entries → Type 0
    FitIn end_of_dir = Unit
    FitIn (entry name node rest) = Fits node × FitIn rest

    pub Fits : Node → Type 0
    Fits (reg size) = Unit
    Fits (lnk text) = handle_symbolic_link fuel text stale ≡ ok text
    Fits (dir entries) = FitIn entries
    Fits other = Unit

  abbrev pub Runs : Result Walk → Walk → List Opened → List (FilePath × List ℕ) → Type 0
  Runs r w files links = (w' : Walk) × (r ≡ ok w') × Visited w w' files links

  unless-Runs :
      (b : Bool) (r : Result Walk) (w : Walk) (files : List Opened)
      (links : List (FilePath × List ℕ))
      → Runs r w files links
      → Runs (if b then ok w else r) w (unless_dot b files) (unless_dot b links)
  unless-Runs true r w files links h = (w, refl, Visited-none w)
  unless-Runs false r w files links h = h

  module _ (good : Works sys) where
    pub make_dir-ok :
        (name : Name) (d : FilePath) (w : Walk)
        → Runs (make_dir sys fuel stale name (some d) w) w [] []
    unfolding make_dir
    make_dir-ok name d w = answered (sys.mkdir_answer (d ++ name ∷ [])) refl
      where
        answered :
            (a : Mkdir)
            → sys.mkdir_answer (d ++ name ∷ []) ≡ a
            → Runs (make_dir sys fuel stale name (some d) w) w [] []
        answered made e = (
          record w { dirs = w.dirs ++ (d ++ name ∷ []) ∷ [] },
          rw (make_dir, e),
          record { cwd = refl; files = sym (append-nil w.files); links = sym (append-nil w.links) },
        )
        answered exists e = (w, rw (make_dir, e), Visited-none w)
        answered refused e = absurd (good.makes_dirs (d ++ name ∷ []) e)

    opened_at-ok :
        (d : FilePath) (name : Name)
        → opened_at sys fuel stale (some d) name ≡ some (d ++ name ∷ [])
    unfolding opened_at
    opened_at-ok d name = rw (opened_at, good.opens_dst (d ++ name ∷ []))

    handle_regular_file-ok :
        (name : Name) (size : ℕ) (d : FilePath) (w : Walk)
        → Runs
            (handle_regular_file sys fuel stale name size (some d) w)
            w
            (record { src = w.cwd ++ name ∷ []; dst = some (d ++ name ∷ []); size = size } ∷ [])
            []
    unfolding handle_regular_file
    handle_regular_file-ok name size d w = (
      record w {
        files =
            w.files
            ++ record {
              src = w.cwd ++ name ∷ [];
              dst = opened_at sys fuel stale (some d) name;
              size = size;
            }
              ∷ [];
      },
      >>=-ok _ (ap (λ b. exit_on (not b)) (good.opens_src (w.cwd ++ name ∷ []))),
      record {
        cwd = refl;
        files =
            ap (λ o. w.files ++ record { src = w.cwd ++ name ∷ []; dst = o; size = size } ∷ [])
              (opened_at-ok d name);
        links = sym (append-nil w.links);
      },
    )

    make_link-ok :
        (name : Name) (text : List ℕ) (d : FilePath) (w : Walk)
        → handle_symbolic_link fuel text stale ≡ ok text
        → Runs (make_link sys fuel stale name text (some d) w) w [] ((d ++ name ∷ [], text) ∷ [])
    unfolding make_link
    make_link-ok name text d w fits = (
      record w { links = w.links ++ (d ++ name ∷ [], text) ∷ [] },
      >>=-ok _ (ap exit_on (good.reads_links (w.cwd ++ name ∷ [])))
          ∙ >>=-ok _ fits
          ∙ >>=-ok _ (ap exit_on (good.makes_links (d ++ name ∷ []))),
      record { cwd = refl; files = sym (append-nil w.files); links = refl },
    )

    mutual
      unfolding cp_dir files_in links_in FitIn close_dst

      cp_dir-Runs :
          (es : Entries) (d : FilePath) (w : Walk)
          → FitIn es
          → Runs (cp_dir sys fuel stale es (some d) w) w (files_in w.cwd d es) (links_in d es)
      cp_dir-Runs end_of_dir d w fit = (w, refl, Visited-none w)
      cp_dir-Runs (entry name node rest) d w fit =
          let files = files_of (w.cwd ++ name ∷ []) (d ++ name ∷ []) node in
          let links = links_of (d ++ name ∷ []) node in
          let (w₁, e₁, v₁) =
            unless-Runs (is_dot name) (cp_node sys fuel stale node name (some d) w) w files links
              (cp_node-Runs node name d w fit.0) in
          let (w₂, e₂, v₂) = cp_dir-Runs rest d w₁ fit.1 in
          let v = subst (λ c. Visited w₁ w₂ (files_in c d rest) (links_in d rest)) v₁.cwd v₂ in
          (
            w₂,
            >>=-ok (cp_dir sys fuel stale rest (some d)) e₁ ∙ e₂,
            Visited-both w w₁ w₂ (unless_dot (is_dot name) files) (files_in w.cwd d rest)
                (unless_dot (is_dot name) links) (links_in d rest) v₁ v,
          )

      cp_node-Runs :
          (node : Node) (name : Name) (d : FilePath) (w : Walk)
          → Fits node
          → Runs
              (cp_node sys fuel stale node name (some d) w)
              w
              (files_of (w.cwd ++ name ∷ []) (d ++ name ∷ []) node)
              (links_of (d ++ name ∷ []) node)
      cp_node-Runs (reg size) name d w fit = handle_regular_file-ok name size d w
      cp_node-Runs (lnk text) name d w fit = make_link-ok name text d w fit
      cp_node-Runs (dir es) name d w fit =
          let here = w.cwd ++ name ∷ [] in
          let below = d ++ name ∷ [] in
          let (w₁, e₁, v₁) = make_dir-ok name d w in
          let (w₂, e₂, v₂) = cp_dir-Runs es below (record w₁ { cwd = here }) fit in
          let opened = opened_at-ok d name in
          (
            record w₂ { cwd = parent w₂.cwd },
            >>=-ok _ (ap (λ b. exit_on (not b)) (good.opens_src here))
                ∙ >>=-ok _ e₁
                ∙ >>=-ok _ (ap exit_on (good.changes_dir here))
                ∙ >>=-ok _
                    (ap (λ o. cp_dir sys fuel stale es o (record w₁ { cwd = here })) opened ∙ e₂)
                ∙ >>=-ok _ (ap exit_on (good.changes_dir (parent w₂.cwd)))
                ∙ >>=-ok _ (ap (close_dst sys fuel stale) opened),
            record {
              cwd = ap parent v₂.cwd ∙ parent-append w.cwd name;
              files =
                  v₂.files ∙ ap (λ l. l ++ files_in here below es) (v₁.files ∙ append-nil w.files);
              links = v₂.links ∙ ap (λ l. l ++ links_in below es) (v₁.links ∙ append-nil w.links);
            },
          )
      cp_node-Runs other name d w fit = (w, refl, Visited-none w)

    -- If no call fails and every link is copied with its text, the traversal of a directory succeeds
    -- and comes back to the working directory that it began in. It opened every regular file below
    -- the directory, in the order of the traversal and with its size, by its path there, and its copy
    -- by the same path below the destination; and it made every link below the directory, with its
    -- text, by its path below the destination.
    pub cp_dir-Visited :
        (es : Entries) (d : FilePath) (w : Walk)
        → FitIn es
        → (w' : Walk) × (cp_dir sys fuel stale es (some d) w ≡ ok w')
          × Visited w w' (files_in w.cwd d es) (links_in d es)
    cp_dir-Visited es d w fit = cp_dir-Runs es d w fit
