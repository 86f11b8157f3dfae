-- ===== src/Snapshots/Tests.antt =====
-- Snapshots of a shop and a blog, and a codec that puts a letter in front.
use locorum.Common.{
  ℕ, zero, suc, ◌+◌, ◌≡◌, refl, inl, inr, Bool-cases, true, false, Option, none, some, List, [],
  ◌∷◌, ◌++◌, if◌then◌else◌,
}
use locorum.Common.Text.{codes, equals, to_lower, trim_space}
use locorum.Snapshots.{
  zstd, SnapshotInfo, clean_engine, clean_version, build_snapshot_name, strip_suffix, split_sep,
  is_all_lower_alpha, cut_dash, split_engine_version, parse_snapshot_name,
}
use locorum.Snapshots.Names.{parse_snapshot_name-build_snapshot_name}
use locorum.Snapshots.Store.{holds, absent, put, checksum_line, mismatch, verify_checksum}
use locorum.Snapshots.Take.{Site, World, Env, engine_kind, valid_label, snapshot_locked, snapshot}
use locorum.Snapshots.Restore.{
  checksum_failed, RestoreOptions, base_name, reader_codec, restore_snapshot,
}
use locorum.Snapshots.Checksum.{IsDigest, GoesWell, IsJudged, verify_checksum-snapshot_locked}
use locorum.Snapshots.Sweep.{
  SnapshotRetentionPolicy, select, by_site, sweep_group, sweep_groups, sweep_snapshots,
}

abbrev stamp : List ℕ
stamp = codes "20260506T120000Z"

-- Reads a time by its last digits only.
abbrev read_time : List ℕ → Option ℕ
read_time ts =
    if equals ts stamp
    then some 12
    else if equals ts (codes "20260507T000000Z")
    then some 24
    else none

abbrev first_name : List ℕ
first_name = codes "shop--pre_restore--20260506T120000Z--mysql-8.0.36.sql.zst"

built :
    build_snapshot_name
      (codes "shop")
      (codes "pre_restore")
      (codes "MySQL")
      (codes "8.0/.36")
      stamp
      zstd
    ≡ first_name
unfolding build_snapshot_name clean_engine clean_version to_lower
built = refl

parse_snapshot_name-build_snapshot_name_example :
    parse_snapshot_name read_time (
      build_snapshot_name
        (codes "shop")
        (codes "pre_restore")
        (codes "MySQL")
        (codes "8.0/.36")
        stamp
        zstd)
    ≡ some (record {
      filename =
          build_snapshot_name
            (codes "shop")
            (codes "pre_restore")
            (codes "MySQL")
            (codes "8.0/.36")
            stamp
            zstd;
      slug = codes "shop";
      label = codes "pre_restore";
      engine = clean_engine (codes "MySQL");
      version = clean_version (codes "8.0/.36");
      created_at = 12;
      compression = zstd;
    })
unfolding clean_engine clean_version to_lower is_all_lower_alpha equals valid_label
parse_snapshot_name-build_snapshot_name_example =
    parse_snapshot_name-build_snapshot_name (codes "shop") (codes "pre_restore") (codes "MySQL")
      (codes "8.0/.36") stamp zstd read_time 12 (cc) refl refl refl refl refl refl refl

-- A stray file, and an engine with a digit, are not read.
strays :
    (parse_snapshot_name read_time (codes ".policy.json") ≡ none)
    × (parse_snapshot_name read_time (codes "shop--a--20260506T120000Z--mysql8-8.sql.gz") ≡ none)
unfolding parse_snapshot_name strip_suffix split_sep cut_dash is_all_lower_alpha equals
    split_engine_version
strays = (refl, refl)

abbrev repeat : ℕ → ℕ → List ℕ
repeat zero c = []
repeat (suc n) c = c ∷ repeat n c

-- A digest that tells a compressed text from others.
abbrev digest : List ℕ → List ℕ
digest [] = repeat 64 b'0'
digest (c ∷ s) = repeat 64 (if equals (c ∷ []) (codes "z") then b'f' else b'0')

abbrev shop : Site
shop = record {
  slug = codes "shop";
  db_engine = codes "mysql";
  db_version = codes "8.0.36";
  started = true;
}

abbrev env : Env ℕ (List ℕ)
env = record {
  site = λ w. some (some shop);
  pre_snapshot = λ w. (record w { rest = w.rest + 1 }, true);
  post_snapshot = λ w. (w, true);
  snapshots_dir = λ w. some (codes "/s");
  timestamp = λ w. stamp;
  read_time = read_time;
  dump = λ w. some w.db;
  compress = λ codec s. b'z' ∷ s;
  open_reader = λ codec s. some s;
  hash = digest;
  is_written = λ w path. true;
  restore = λ w stream. (record w { db = stream }, true);
  auto_snapshot = true;
}

abbrev world : World ℕ
world = record { db = codes "INSERT"; files = λ path. absent; rest = 0 }

abbrev careful : RestoreOptions
careful = record { allow_engine_mismatch = false; skip_checksum = false; skip_auto_snapshot = true }

abbrev first_path : List ℕ
first_path = codes "/s/" ++ first_name

-- A snapshot that was just taken is refused, and restored where the check is skipped.
refused :
    let w = (snapshot env (codes "pre_restore") world).0 in
    ((restore_snapshot env first_path careful w).1 ≡ some (checksum_failed mismatch))
    × ((restore_snapshot env first_path (record careful { skip_checksum = true }) w).0.db
        ≡ codes "zINSERT")
unfolding snapshot snapshot_locked valid_label engine_kind build_snapshot_name clean_engine
    clean_version to_lower put checksum_line restore_snapshot verify_checksum parse_snapshot_name
    base_name reader_codec strip_suffix split_sep cut_dash is_all_lower_alpha equals
    split_engine_version trim_space
refused = (refl, refl)

-- A snapshot without a sidecar is on disk.
abbrev stocked : World ℕ
stocked = record world {
  files = λ path. if equals path first_path then holds (codes "zINSERT") else absent;
}

restored : (restore_snapshot env first_path careful stocked).0.db ≡ codes "zINSERT"
unfolding restore_snapshot verify_checksum parse_snapshot_name base_name reader_codec strip_suffix
    split_sep cut_dash is_all_lower_alpha equals split_engine_version to_lower
restored = refl

digest-IsDigest : (s : List ℕ) → IsDigest (digest s)
digest-IsDigest [] = (refl, refl)
digest-IsDigest (c ∷ s) = elim (Bool-cases (equals (c ∷ []) (codes "z"))) [
  | inl e ↦ rw e (refl, refl)
  | inr e ↦ rw e (refl, refl)
]

GoesWell-env : GoesWell env
GoesWell-env = record {
  writes = λ w path. refl;
  hooks = λ w. refl;
  digests = λ s. digest-IsDigest s;
}

verify_checksum-snapshot_locked_example :
    IsJudged env
      (record world { rest = 1 })
      (snapshot_locked env shop (codes "a") world).0
      (codes "/s/shop--a--20260506T120000Z--mysql-8.0.36.sql.zst")
unfolding snapshot_locked engine_kind build_snapshot_name clean_engine clean_version to_lower equals
verify_checksum-snapshot_locked_example =
    verify_checksum-snapshot_locked env GoesWell-env shop (codes "a") world
      (snapshot_locked env shop (codes "a") world).0
      (codes "/s/shop--a--20260506T120000Z--mysql-8.0.36.sql.zst") refl

abbrev info : List ℕ → List ℕ → List ℕ → ℕ → SnapshotInfo
info name slug label created = record {
  filename = name;
  slug = slug;
  label = label;
  engine = codes "mysql";
  version = codes "8";
  created_at = created;
  compression = zstd;
}

abbrev listing : List SnapshotInfo
listing =
    info (codes "shop--b--20260507T000000Z--mysql-8.sql.zst") (codes "shop") (codes "b") 24
    ∷ info (codes "blog--b--20260506T120000Z--mysql-8.sql.zst") (codes "blog") (codes "b") 12
    ∷ info (codes "shop--a--20260506T120000Z--mysql-8.sql.zst") (codes "shop") (codes "a") 12
    ∷ []

abbrev one_each : SnapshotRetentionPolicy
one_each = record { max_per_site = 1; max_age = 0 }

swept :
    (sweep_snapshots (λ n. true) one_each 30 (codes "blog" ∷ codes "shop" ∷ []) listing).removed ≡ 1
unfolding sweep_snapshots sweep_groups sweep_group by_site select equals
swept = refl
