-- ===== src/Adapters/Rows.antt =====
-- What holds of the rows that the listings of src/adapters return.
use agentv.Base.{
  ℕ, zero, suc, ◌+◌, ◌≤◌, ◌<◌, ◌≡◌, refl, sym, ap, map, ◌++◌, length-append, length-take, min,
  subst, ◌∙◌, ◌↔◌, inl, inr, String, List, [], ◌∷◌, Bool, true, false, ◌&&◌, not, arith, length,
  take, all, any, keep, Bool-cases, and_inv, and_intro,
}
use agentv.Base.Result.{Result, ok, bind_inv, ok_inj}
use agentv.Base.Sort.{Sign, sort, all-sort, sort-perm, length-sort}
use agentv.Base.Scan.{drop}
use mathlib.Core.List.{Perm}
use agentv.Adapters.{Page, page, page_counts}
use agentv.Adapters.Command.{Platform, CommandResult}
use agentv.Adapters.Filesystems
use agentv.Adapters.Sockets
use agentv.Errors.{Thrown}

module _ {A : Type 0} where
  pub all-keep : (p : A → Bool) (xs : List A) → all p (keep p xs) ≡ true
  all-keep p [] = refl
  all-keep p (x ∷ xs) = elim (Bool-cases (p x)) [
    | inl e ↦ rw (e, keep) (and_intro e (all-keep p xs))
    | inr e ↦ rw (e, keep) (all-keep p xs)
  ]

  -- a filter keeps what holds of every row
  pub all-keep_other : (p q : A → Bool) (xs : List A) → all p xs ≡ true → all p (keep q xs) ≡ true
  all-keep_other p q [] h = refl
  all-keep_other p q (x ∷ xs) h =
      let (first, others) = and_inv (p x) _ h in ground (arith, all-keep_other p q xs others)

  all-and :
      (p q : A → Bool) (xs : List A)
      → all p xs ≡ true
      → all q xs ≡ true
      → all (λ x. p x && q x) xs ≡ true
  all-and p q [] hp hq = refl
  all-and p q (x ∷ xs) hp hq =
      let (px, ps) = and_inv (p x) _ hp in
      let (qx, qs) = and_inv (q x) _ hq in and_intro (and_intro px qx) (all-and p q xs ps qs)

  -- no row is odd, if none is found to be
  all-any-false : (p : A → Bool) (xs : List A) → any p xs ≡ false → all (λ x. not (p x)) xs ≡ true
  all-any-false p [] h = refl
  all-any-false p (x ∷ xs) h = ground (arith, all-any-false p xs)

  -- the rows that pass two filters, sorted
  all-sorted :
      (cmp : A → A → Sign) (p q : A → Bool) (xs : List A)
      → all (λ x. p x && q x) (sort cmp (keep q (keep p xs))) ≡ true
  all-sorted cmp p q xs =
      all-sort cmp (λ x. p x && q x) (keep q (keep p xs))
      ∙ all-and p q _ (all-keep_other p q (keep p xs) (all-keep p xs)) (all-keep q (keep p xs))

  pub all-take : (p : A → Bool) (n : ℕ) (xs : List A) → all p xs ≡ true → all p (take n xs) ≡ true
  all-take p zero xs h = refl
  all-take p (suc n) [] h = refl
  all-take p (suc n) (x ∷ xs) h =
      let (first, others) = and_inv (p x) _ h in and_intro first (all-take p n xs others)

  keep-keep : (p q : A → Bool) (xs : List A) → keep q (keep p xs) ≡ keep (λ x. p x && q x) xs
  keep-keep p q [] = refl
  keep-keep p q (x ∷ xs) = elim (Bool-cases (p x)) [
    | inl e ↦ rw (e, keep-keep p q xs) refl
    | inr e ↦ rw (e, keep-keep p q xs) refl
  ]

  take-drop : (n : ℕ) (xs : List A) → take n xs ++ drop n xs ≡ xs
  take-drop zero xs = refl
  take-drop (suc n) [] = refl
  take-drop (suc n) (x ∷ xs) = ap (◌∷◌ x) (take-drop n xs)

  length-drop : (n : ℕ) (xs : List A) → length (take n xs) + length (drop n xs) ≡ length xs
  length-drop n xs = sym (length-append (take n xs) (drop n xs)) ∙ ap length (take-drop n xs)

-- A page without gaps: at most `limit` rows, all of them as asked for, and as many left out as it says.
pub record IsPage {A : Type 0} (limit : ℕ) (wanted : A → Bool) (p : Page A) : Type 0 where
  pub count : length p.items ≤ limit
  pub whole : length p.items + p.omitted_count ≡ p.original_count
  pub rows : all wanted p.items ≡ true

page-IsPage :
    {A : Type 0} (limit : ℕ) (wanted : A → Bool) (rows : List A)
    → all wanted rows ≡ true
    → IsPage limit wanted (page limit rows)
page-IsPage limit wanted rows h = record {
  count = (page_counts limit rows).0;
  whole = (page_counts limit rows).1;
  rows = all-take wanted limit rows h;
}

module _ (p : Platform) where
  abbrev wants_filesystem : Filesystems.FilesystemsInput → Filesystems.FilesystemSummary → Bool
  wants_filesystem input item =
      Filesystems.is_shown input.include_pseudo item && Filesystems.same_mount input.mount item

  -- A page of those of these rows that the input asks for: every such row is on the page or among the
  -- `rest` that is left out, and the counts are those of the rows.
  pub record IsMountPage (input : Filesystems.FilesystemsInput)
      (rows : List Filesystems.FilesystemSummary) (l : Filesystems.Listing) : Type 0 where
    pub is_page : IsPage input.limit (wants_filesystem input) l.page
    pub rest : List Filesystems.FilesystemSummary
    pub all_there : Perm (l.page.items ++ rest) (keep (wants_filesystem input) rows)
    pub full : length l.page.items ≡ min input.limit l.page.original_count
    pub count_exact : l.page.original_count ≡ length (keep (wants_filesystem input) rows)
    pub omitted_exact : l.page.omitted_count ≡ length rest
    pub truncated_exact : (l.truncated ≡ true) ↔ (0 < l.page.omitted_count)

  matching-Perm :
      (input : Filesystems.FilesystemsInput) (rows : List Filesystems.FilesystemSummary)
      → Perm (Filesystems.matching p input rows) (keep (wants_filesystem input) rows)
  unfolding Filesystems.matching
  matching-Perm input rows =
      let wanted =
        keep (Filesystems.same_mount input.mount)
          (keep (Filesystems.is_shown input.include_pseudo) rows) in
      subst (λ ws. Perm (Filesystems.matching p input rows) ws)
        (keep-keep (Filesystems.is_shown input.include_pseudo) (Filesystems.same_mount input.mount)
          rows)
        (sort-perm (λ a b. p.locale_compare a.mount b.mount) wanted)

  matching-IsMountPage :
      (input : Filesystems.FilesystemsInput) (rows : List Filesystems.FilesystemSummary)
      → IsMountPage input rows
          (Filesystems.listing_of input.limit (Filesystems.matching p input rows))
  unfolding Filesystems.listing_of Filesystems.matching
  matching-IsMountPage input rows =
      let found = Filesystems.matching p input rows in
      record {
        is_page = page-IsPage input.limit (wants_filesystem input) _ (
            all-sorted _ (Filesystems.is_shown input.include_pseudo)
              (Filesystems.same_mount input.mount) rows);
        rest = drop input.limit found;
        all_there =
            subst (λ xs. Perm xs (keep (wants_filesystem input) rows))
              (sym (take-drop input.limit found)) (matching-Perm input rows);
        full = length-take input.limit found;
        count_exact =
            length-sort (λ a b. p.locale_compare a.mount b.mount) _
            ∙ ap length (
                keep-keep (Filesystems.is_shown input.include_pseudo)
                  (Filesystems.same_mount input.mount) rows);
        omitted_exact = omega (arith, length-take input.limit found, length-drop input.limit found);
        truncated_exact = ((λ h. ground arith), (λ h. ground arith));
      }

  -- The rows of two tables of df and the mounts of the kernel.
  abbrev pub mounted : String → String → String → List Filesystems.FilesystemSummary
  mounted bytes inodes mounts =
      map
        (Filesystems.summary_of (Filesystems.parse_filesystem_output inodes)
          (Filesystems.read_only_mounts mounts))
        (Filesystems.parse_filesystem_output bytes)

  -- A listing of filesystems is made of the rows that df and the kernel gave. Each row on the mount asked
  -- for, that is no pseudo filesystem unless they are asked for, is on the page or left out, and no other
  -- row is; the page holds as many of them as the limit lets it, the counts are of all of them and of
  -- those left out, and the listing says that it is truncated exactly if some are left out.
  pub list_filesystems-IsPage :
      (mount_info : Result Thrown String) (input : Filesystems.FilesystemsInput)
      (l : Filesystems.Listing)
      → Filesystems.list p mount_info input ≡ ok l
      → (bytes : CommandResult) × (inodes : CommandResult) × (mounts : String) × (Filesystems.df p
            "-B1"
          ≡ ok bytes)
        × (Filesystems.df p "-i" ≡ ok inodes)
        × (mount_info ≡ ok mounts)
        × IsMountPage input (mounted bytes.stdout inodes.stdout mounts) l
  unfolding Filesystems.list
  list_filesystems-IsPage mount_info input l h =
      let (bytes, b, h₁) = bind_inv {m = Filesystems.df p "-B1"} h in
      let (inodes, i, h₂) = bind_inv {m = Filesystems.df p "-i"} h₁ in
      let (mounts, m, h₃) = bind_inv {m = mount_info} h₂ in
      let rows = mounted bytes.stdout inodes.stdout mounts in
      (
        bytes,
        inodes,
        mounts,
        b,
        i,
        m,
        subst (IsMountPage input rows) (ok_inj h₃) (matching-IsMountPage input rows),
      )

  abbrev wants_listener : Sockets.ListenersInput → Sockets.ListenerSummary → Bool
  wants_listener input row =
      Sockets.same_port input.port row
      && (Sockets.same_address input.address row
          && Sockets.matches_process p input.process_query row)

  abbrev pub IsListeners : Sockets.ListenersInput → Sockets.Listing → Type 0
  IsListeners input l =
      IsPage input.limit (wants_listener input) l.page
      × (l.partial ≡ false → all (λ row. not (Sockets.is_unowned row)) l.page.items ≡ true)

  all-wants_listener :
      (input : Sockets.ListenersInput) (rows : List Sockets.ListenerSummary)
      → all (wants_listener input) (Sockets.matching p input rows) ≡ true
  unfolding Sockets.matching
  all-wants_listener input rows =
      let port = Sockets.same_port input.port in
      let address = Sockets.same_address input.address in
      let process = Sockets.matches_process p input.process_query in
      let on_port = keep port rows in
      let at_address = keep address on_port in
      all-sort (Sockets.compare_rows p) (wants_listener input) (keep process at_address)
      ∙ all-and port (λ row. address row && process row) (keep process at_address)
          (all-keep_other port process at_address
            (all-keep_other port address on_port (all-keep port rows)))
          (all-and address process _
            (all-keep_other address process at_address (all-keep address on_port))
            (all-keep process at_address))

  listing_of-IsListeners :
      (input : Sockets.ListenersInput) (rows : List Sockets.ListenerSummary)
      → all (wants_listener input) rows ≡ true
      → IsListeners input (Sockets.listing_of input.limit rows)
  unfolding Sockets.listing_of
  listing_of-IsListeners input rows wanted = (
    page-IsPage input.limit (wants_listener input) rows wanted,
    λ owned. all-take _ input.limit rows (all-any-false Sockets.is_unowned rows owned),
  )

  -- A listing of sockets is a page of those with the port, the address and the process asked for; if it
  -- is not partial, the owner of each is known.
  pub list_sockets-IsPage :
      (executable : Result Thrown String) (input : Sockets.ListenersInput) (l : Sockets.Listing)
      → Sockets.list p executable input ≡ ok l
      → IsListeners input l
  unfolding Sockets.list
  list_sockets-IsPage executable input l h =
      let (path, _, h₁) = bind_inv {m = executable} h in
      let (rows, _, h₂) =
        bind_inv {m = Sockets.read_rows p path (Sockets.protocols input.protocol)} h₁ in
      subst (IsListeners input) (ok_inj h₂)
        (listing_of-IsListeners input _ (all-wants_listener input rows))
