-- ===== src/Options/Checked.antt =====
-- The options of main where a trace and a directory alone are given.
use gogeta_fs_ae.Common.{
  ℕ, ◌≤◌, ◌<◌, ◌≡◌, refl, ◌∙◌, Bool, true, false, List, [], ◌∷◌, ◌++◌, ◌==◌, length, length-append,
  Result, ok, err, exited, >>=-ok, if◌then◌else◌, arith,
}
use gogeta_fs_ae.Options.{
  Config, initial, slash, copy_name, last_char, copy_directory, opt_f, opt_d, set_option,
  set_options, check_config, configure,
}

last_char-append : (path : List ℕ) (c : ℕ) → last_char (path ++ c ∷ []) ≡ ok c
unfolding last_char
last_char-append [] c = refl
last_char-append (x ∷ []) c = refl
last_char-append (x ∷ y ∷ path) c = last_char-append (y ∷ path) c

copy_name-ok : (s : List ℕ) → length s < 256 → copy_name s ≡ ok s
unfolding copy_name
copy_name-ok s h = ground (arith, h)

-- The path with a slash behind it where it has none.
abbrev pub closed : List ℕ → ℕ → List ℕ
closed dst c = if c == slash then dst ++ c ∷ [] else (dst ++ c ∷ []) ++ slash ∷ []

copy_directory-closed :
    (dst : List ℕ) (c : ℕ) → length dst < 254 → copy_directory (dst ++ c ∷ []) ≡ ok (closed dst c)
unfolding copy_directory
copy_directory-closed dst c room =
    let path = dst ++ c ∷ [] in
    let size = length-append dst (c ∷ []) in
    >>=-ok _ (copy_name-ok path (omega (arith, size, room)))
    ∙ >>=-ok _ (last_char-append dst c)
    ∙ pick (c == slash) (omega (arith, size, room, length-append path (slash ∷ [])))
  where
    pick :
        (b : Bool)
        → length ((dst ++ c ∷ []) ++ slash ∷ []) < 256
        → (if b then ok (dst ++ c ∷ []) else copy_name ((dst ++ c ∷ []) ++ slash ∷ []))
          ≡ ok (if b then dst ++ c ∷ [] else (dst ++ c ∷ []) ++ slash ∷ [])
    pick true h = refl
    pick false h = copy_name-ok ((dst ++ c ∷ []) ++ slash ∷ []) h

closed-given : (dst : List ℕ) (c : ℕ) → (length (closed dst c) == 0) ≡ false
closed-given dst c =
    pick (c == slash) (omega (arith, length-append dst (c ∷ [])))
      (omega (arith, length-append (dst ++ c ∷ []) (slash ∷ [])))
  where
    pick :
        (b : Bool)
        → 1 ≤ length (dst ++ c ∷ [])
        → 1 ≤ length ((dst ++ c ∷ []) ++ slash ∷ [])
        → (length (if b then dst ++ c ∷ [] else (dst ++ c ∷ []) ++ slash ∷ []) == 0) ≡ false
    pick true h k = ground (arith, h)
    pick false h k = ground (arith, k)

-- A check that a run passes.
passes-unless : (b : Bool) (r : Result Config) → b ≡ false → (if b then err (exited 1) else r) ≡ r
passes-unless true r e = cc
passes-unless false r e = refl

passes-if : (b : Bool) (r : Result Config) → b ≡ true → (if b then r else err (exited 1)) ≡ r
passes-if true r e = refl
passes-if false r e = cc

module _ (atoi : List ℕ → ℕ) where
  module _ (opens : List ℕ → Bool) where
    defaults-set :
        (trace dst : List ℕ) (c : ℕ)
        → length trace < 256
        → length dst < 254
        → set_options atoi initial (opt_f trace ∷ opt_d (dst ++ c ∷ []) ∷ [])
          ≡ ok (record initial { filepath = trace; dstpath = closed dst c })
    unfolding set_options set_option
    defaults-set trace dst c room room_dst =
        >>=-ok _ (>>=-ok _ (copy_name-ok trace room))
        ∙ >>=-ok _ (>>=-ok _ (copy_directory-closed dst c room_dst))

    defaults-checked :
        (trace dst : List ℕ) (c : ℕ)
        → (length trace == 0) ≡ false
        → (length (closed dst c) == 0) ≡ false
        → opens trace ≡ true
        → check_config atoi opens (record initial { filepath = trace; dstpath = closed dst c })
          ≡ ok (record initial { filepath = trace; dstpath = closed dst c })
    unfolding check_config
    defaults-checked trace dst c given named found_it =
        passes-unless (length trace == 0) _ given
        ∙ passes-unless (length (closed dst c) == 0) _ named
        ∙ passes-if (opens trace) _ found_it

    -- With a trace and a directory alone, main goes on if the trace opens and both names have a
    -- character and room: with a slash behind the directory if it had none, in the mode w, with no
    -- generator, one thread and hints of one block.
    pub configure-defaults :
        (trace dst : List ℕ) (c : ℕ)
        → 1 ≤ length trace
        → length trace < 256
        → length dst < 254
        → opens trace ≡ true
        → configure atoi opens (opt_f trace ∷ opt_d (dst ++ c ∷ []) ∷ [])
          ≡ ok (record initial { filepath = trace; dstpath = closed dst c })
    unfolding configure
    configure-defaults trace dst c given room room_dst found_it =
        >>=-ok _ (defaults-set trace dst c room room_dst)
        ∙ defaults-checked trace dst c (ground (arith, given)) (closed-given dst c) found_it
