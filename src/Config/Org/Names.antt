-- ===== src/Config/Org/Names.antt =====
-- internal/config/org.go: the suborgs that a load gives.
use repositories_settings.Base.{
  ℕ, suc, String, ◌==◌, ◌≡◌, ◌≢◌, refl, sym, ap, subst, Bool, true, false, Option, none, some, List,
  [], ◌∷◌, contains, nat_eq, count, arith, Bool-cases, inl, inr, ◌⊎◌, eq_iff, if◌then◌else◌,
}
use repositories_settings.Config.Schema.{items, Settings}
use repositories_settings.Config.Resolution.{Suborg}
use repositories_settings.Config.Policy.Inputs.{Runtime}
use repositories_settings.Config.Loader.{
  Decoder, Fetched, missing, failed, content, Loaded, loaded, load_failed,
}
use repositories_settings.Config.Org.{
  suborg_dir, SuborgEntry, SuborgIndexFile, Strict, rejected, accepted, OrgDecoder, Read, done,
  stopped, last_part, strip_slashes, base_of, path_base, is_segment, load_dir, name_issue,
  with_issue, with_suborg, with_loaded, with_name, scan, suborgs_of, index_strict,
  suborg_index_path, index_of, load_suborgs,
}

last_part-count : (s : String) → count b'/' (last_part s) ≡ 0
last_part-count String.[] = refl
last_part-count (String.◌∷◌ c s) =
    at_test (nat_eq (count b'/' (String.◌∷◌ c s)) 0) (λ e. ground (arith, e)) (last_part-count s)
  where
    at_test :
        (b : Bool)
        → (b ≡ true → count b'/' (String.◌∷◌ c s) ≡ 0)
        → count b'/' (last_part s) ≡ 0
        → count b'/' (if b then String.◌∷◌ c s else last_part s) ≡ 0
    at_test true h rest = h refl
    at_test false h rest = rest

-- A name without a slash, or the slash alone, which is its own base.
abbrev pub IsSegment : String → Type 0
IsSegment name = (count b'/' name ≡ 0) ⊎ (name ≡ "/")

path_base-IsSegment : (s : String) → IsSegment (path_base s)
unfolding path_base
path_base-IsSegment s = at_test (s == "")
  where
    at_part :
        (part : String) → count b'/' part ≡ 0 → (b : Bool) → IsSegment (if b then "/" else part)
    at_part part h true = inr refl
    at_part part h false = inl h

    at_test : (b : Bool) → IsSegment (if b then "." else base_of (last_part (strip_slashes s)))
    at_test true = inl refl
    at_test false =
        at_part (last_part (strip_slashes s)) (last_part-count (strip_slashes s))
          (last_part (strip_slashes s) == "")

is_segment-IsSegment : (name : String) → is_segment name ≡ true → IsSegment name
is_segment-IsSegment name h =
    let same : name ≡ path_base name = (eq_iff name (path_base name)).0 (ground (arith, h)) in
    subst IsSegment (sym same) (path_base-IsSegment name)

module _ (rt : Runtime) (url_scheme : String → Option String) (d : Decoder) (od : OrgDecoder)
    (trim_space : String → String) (order : String → List String)
    (get_file : String → Fetched) where
  -- A suborg has a name of its own, other than the given ones, and the settings of its own directory.
  abbrev pub IsOwn : List String → Suborg → Type 0
  IsOwn seen so =
      (contains seen so.name ≡ false)
      × ((so.name ≢ "")
          × (IsSegment so.name
              × ((so.name ≢ "..")
                  × ((s : Settings) × ((so.settings ≡ some s)
                        × (load_dir rt url_scheme d od trim_space order get_file
                              (suborg_dir so.name)
                            ≡ loaded s))))))

  abbrev pub AllOwn : List String → List Suborg → Type 0
  AllOwn seen [] = Unit
  AllOwn seen (so ∷ sos) = IsOwn seen so × AllOwn (so.name ∷ seen) sos

  name_issue-inv :
      (i : ℕ) (raw name : String) (seen : List String)
      → name_issue rt url_scheme d od trim_space order get_file i raw name seen ≡ none
      → (contains seen name ≡ false) × (((name == "") ≡ false) × (is_segment name ≡ true))
  unfolding name_issue
  name_issue-inv i raw name seen h = elim (Bool-cases (name == "")) [
    | inl e ↦ absurd (ground (arith, e, h))
    | inr e ↦ elim (Bool-cases (is_segment name)) [
      | inr f ↦ absurd (ground (arith, e, f, h))
      | inl f ↦ elim (Bool-cases (contains seen name)) [
        | inl g ↦ absurd (ground (arith, e, f, g, h))
        | inr g ↦ (g, (e, f))
      ]
    ]
  ]

  -- One turn of the loop.
  module _ (entry : SuborgEntry) (seen : List String) (out : List Suborg) where
    with_issue-AllOwn :
        (issue : String) (r : Read (List String × List Suborg))
        → with_issue rt url_scheme d od trim_space order get_file issue r ≡ done ([], out)
        → AllOwn seen out
    with_issue-AllOwn issue (stopped e) k = absurd (ground (arith, k))
    with_issue-AllOwn issue (done r) k = absurd (ground (arith, k))

    with_suborg-AllOwn :
        (name : String) (s : Settings) (r : Read (List String × List Suborg))
        → load_dir rt url_scheme d od trim_space order get_file (suborg_dir name) ≡ loaded s
        → (contains seen name ≡ false) × (((name == "") ≡ false) × (is_segment name ≡ true))
        → ((sos : List Suborg) → r ≡ done ([], sos) → AllOwn (name ∷ seen) sos)
        → with_suborg rt url_scheme d od trim_space order get_file entry name s r ≡ done ([], out)
        → AllOwn seen out
    with_suborg-AllOwn name s (stopped e) l good ih k = absurd (ground (arith, k))
    with_suborg-AllOwn name s (done r) l good ih k =
        let none_wrong : r.0 ≡ [] = ap (λ x. elim x [ done y ↦ y.0 | stopped e ↦ [] ]) k in
        let so : Suborg = record { name = name; match = entry.match; settings = some s } in
        let all : so ∷ r.1 ≡ out = ap (λ x. elim x [ done y ↦ y.1 | stopped e ↦ [] ]) k in
        let not_empty : name ≢ "" = λ e. ground (arith, good.1.0, (eq_iff name "").1 e) in
        let not_parent : name ≢ ".." = λ e. ground (arith, good.1.1, (eq_iff name "..").1 e) in
        subst (AllOwn seen) all (
          (good.0, (not_empty, (is_segment-IsSegment name good.1.1, (not_parent, (s, (refl, l)))))),
          ih r.1 (ap (λ is. done (is, r.1)) none_wrong),
        )

    with_loaded-AllOwn :
        (name : String) (l : Loaded) (r : Read (List String × List Suborg))
        → load_dir rt url_scheme d od trim_space order get_file (suborg_dir name) ≡ l
        → (contains seen name ≡ false) × (((name == "") ≡ false) × (is_segment name ≡ true))
        → ((sos : List Suborg) → r ≡ done ([], sos) → AllOwn (name ∷ seen) sos)
        → with_loaded rt url_scheme d od trim_space order get_file entry name l r ≡ done ([], out)
        → AllOwn seen out
    with_loaded-AllOwn name (load_failed errs) r e good ih k = absurd (ground (arith, k))
    with_loaded-AllOwn name (loaded s) r e good ih k = with_suborg-AllOwn name s r e good ih k

  scan-AllOwn :
      (i : ℕ) (entries : List SuborgEntry) (seen : List String) (out : List Suborg)
      → scan rt url_scheme d od trim_space order get_file i entries seen ≡ done ([], out)
      → AllOwn seen out
  unfolding scan
  scan-AllOwn i [] seen out h =
      subst (AllOwn seen) (ap (λ r. elim r [ done x ↦ x.1 | stopped e ↦ [] ]) h) tt
  scan-AllOwn i (entry ∷ entries) seen out h =
      at_name (trim_space entry.name)
        (name_issue rt url_scheme d od trim_space order get_file i entry.name
          (trim_space entry.name) seen)
        (scan rt url_scheme d od trim_space order get_file (suc i) entries seen)
        (scan rt url_scheme d od trim_space order get_file (suc i) entries
          (trim_space entry.name ∷ seen))
        (name_issue-inv i entry.name (trim_space entry.name) seen)
        (scan-AllOwn (suc i) entries (trim_space entry.name ∷ seen)) h
    where
      at_name :
          (name : String) (o : Option String) (skip next : Read (List String × List Suborg))
          → (o ≡ none
              → (contains seen name ≡ false) × (((name == "") ≡ false) × (is_segment name ≡ true)))
          → ((sos : List Suborg) → next ≡ done ([], sos) → AllOwn (name ∷ seen) sos)
          → with_name rt url_scheme d od trim_space order get_file entry name o skip next
            ≡ done ([], out)
          → AllOwn seen out
      at_name name (some issue) skip next good ih k = with_issue-AllOwn entry seen out issue skip k
      at_name name none skip next good ih k =
          with_loaded-AllOwn entry seen out name
            (load_dir rt url_scheme d od trim_space order get_file (suborg_dir name)) next refl
            (good refl) ih k

  -- When the suborgs load, each has a name that is not empty, is not "..", is that of no other, and holds
  -- no slash or is the slash alone; and its settings are those that load from its own directory.
  pub load_suborgs-AllOwn :
      (suborgs : List Suborg)
      → load_suborgs rt url_scheme d od trim_space order get_file ≡ done suborgs
      → AllOwn [] suborgs
  unfolding load_suborgs
  load_suborgs-AllOwn suborgs = at_file (get_file suborg_index_path)
    where
      at_scan :
          (r : Read (List String × List Suborg))
          → ((out : List Suborg) → r ≡ done ([], out) → AllOwn [] out)
          → suborgs_of rt url_scheme d od trim_space order get_file r ≡ done suborgs
          → AllOwn [] suborgs
      at_scan (stopped e) own k = absurd (ground (arith, k))
      at_scan (done ([], out)) own k =
          subst (AllOwn []) (ap (λ x. elim x [ done y ↦ y | stopped e ↦ [] ]) k) (own out refl)
      at_scan (done (i ∷ is, out)) own k = absurd (ground (arith, k))

      at_index :
          (raw : String) (f : Strict SuborgIndexFile)
          → index_strict rt url_scheme d od trim_space order get_file f ≡ done suborgs
          → AllOwn [] suborgs
      at_index raw (rejected err) k = absurd (ground (arith, k))
      at_index raw (accepted index) k =
          at_scan (scan rt url_scheme d od trim_space order get_file 0 (items index.suborgs) [])
            (scan-AllOwn 0 (items index.suborgs) []) k

      at_file :
          (o : Fetched)
          → index_of rt url_scheme d od trim_space order get_file o ≡ done suborgs
          → AllOwn [] suborgs
      at_file missing k = subst (AllOwn []) (ap (λ x. elim x [ done y ↦ y | stopped e ↦ [] ]) k) tt
      at_file (failed err) k = absurd (ground (arith, k))
      at_file (content raw) k = at_index raw (od.index_file raw) k
