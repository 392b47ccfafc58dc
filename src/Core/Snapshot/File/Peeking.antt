-- ===== src/Core/Snapshot/File/Peeking.antt =====
-- What is peeked of a saved snapshot.
use batuta.Base.{
  ℕ, suc, ◌^◌, ◌≤◌, ◌<◌, ◌≡◌, refl, ap, ◌∙◌, arith, true, false, ◌||◌, ◌⊎◌, inr, some, List, [],
  ◌∷◌, ◌++◌, All,
}
use batuta.Base.{length, take, drop, ltb, ◌==◌}
use mathlib.Core.List.{map}
use batuta.Ntfs.Bytes.{to_le_bytes}
use batuta.Ntfs.Bytes.Laws.{from_le_bytes-to_le_bytes}
use batuta.Ntfs.Boot.{bytes_eq}
use batuta.Core.Index.{Index, Node, VolumeInfo}
use batuta.Core.Snapshot.{SnapshotError, compact_names}
use batuta.Core.Snapshot.File.{
  magic, volume_bytes, volume_blocks, columns, table_bytes, header_bytes, saved, SnapshotInfo,
  is_char, number_at, read_drives, peek_header, peek, written_at,
}

pub record HasDrive (v : VolumeInfo) : Type 0 where
  pub char : is_char v.drive ≡ true
  pub word : v.drive < 2 ^ 32

module _ (v : VolumeInfo) (len : ℕ) (rest : List ℕ) where
  block_length : ltb (length (volume_bytes v len ++ rest)) 40 ≡ false
  unfolding volume_bytes to_le_bytes
  block_length = ground arith

  drop-block : drop 40 (volume_bytes v len ++ rest) ≡ rest
  unfolding volume_bytes to_le_bytes
  drop-block = refl

  drive-block : v.drive < 2 ^ 32 → number_at 4 0 (volume_bytes v len ++ rest) ≡ v.drive
  unfolding volume_bytes to_le_bytes number_at
  drive-block h = from_le_bytes-to_le_bytes 4 v.drive h

  -- A volume is read, and then the others.
  read_drives-block :
      (n : ℕ) (drives : List ℕ)
      → HasDrive v
      → read_drives n rest ≡ inr drives
      → read_drives (suc n) (volume_bytes v len ++ rest) ≡ inr (v.drive ∷ drives)
  unfolding read_drives
  read_drives-block n drives here more =
      rw (block_length, drive-block here.word, here.char, drop-block, more)
        (ap (λ (d : ℕ). inr (d ∷ drives)) (drive-block here.word))

no_drives : (rest : List ℕ) → read_drives 0 rest ≡ inr []
unfolding read_drives
no_drives rest = refl

read_drives-volume_blocks :
    (volumes : List VolumeInfo) (tables : List (List ℕ)) (rest : List ℕ)
    → length volumes ≤ length tables
    → All HasDrive volumes
    → read_drives (length volumes) (volume_blocks volumes tables ++ rest)
      ≡ inr (map (λ (v : VolumeInfo). v.drive) volumes)
unfolding volume_blocks
read_drives-volume_blocks [] tables rest enough chars = no_drives rest
read_drives-volume_blocks (v ∷ volumes) [] rest enough chars = absurd (omega (arith, enough))
read_drives-volume_blocks (v ∷ volumes) (table ∷ tables) rest enough (here, chars) =
    read_drives-block v (length table) (volume_blocks volumes tables ++ rest) (length volumes)
      (map (λ (v : VolumeInfo). v.drive) volumes) here
      (read_drives-volume_blocks volumes tables rest (omega (arith, enough)) chars)

module _ (nodes name_bytes count hash now : ℕ) (rest : List ℕ) where
  abbrev whole : List ℕ
  whole = header_bytes nodes name_bytes count hash now ++ rest

  pub header_length : ltb (length whole) 64 ≡ false
  unfolding header_bytes to_le_bytes
  header_length = ground arith

  pub take-header : take 64 whole ≡ header_bytes nodes name_bytes count hash now
  unfolding header_bytes to_le_bytes
  take-header = refl

  pub drop-header : drop 64 whole ≡ rest
  unfolding header_bytes to_le_bytes
  drop-header = refl

  magic-header : bytes_eq (take 8 whole) magic ≡ true
  unfolding header_bytes to_le_bytes bytes_eq
  magic-header = refl

  written_at-header : now < 2 ^ 64 → written_at whole ≡ some now
  unfolding written_at
  written_at-header h = rw (header_length, magic-header) (ap some time)
    where
      time : number_at 8 48 whole ≡ now
      time = unfold header_bytes to_le_bytes number_at in from_le_bytes-to_le_bytes 8 now h

module _ (nodes name_bytes count hash now : ℕ) where
  abbrev front : List ℕ
  front = header_bytes nodes name_bytes count hash now

  pub magic-front : bytes_eq (take 8 front) magic ≡ true
  unfolding header_bytes to_le_bytes bytes_eq
  magic-front = refl

  pub version-front : number_at 4 8 front ≡ 2
  unfolding header_bytes to_le_bytes number_at
  version-front = from_le_bytes-to_le_bytes 4 2 (omega arith)

  pub count-front : count < 2 ^ 32 → number_at 4 32 front ≡ count
  unfolding header_bytes to_le_bytes number_at
  count-front h = from_le_bytes-to_le_bytes 4 count h

  pub nodes-front : nodes < 2 ^ 64 → number_at 8 16 front ≡ nodes
  unfolding header_bytes to_le_bytes number_at
  nodes-front h = from_le_bytes-to_le_bytes 8 nodes h

  now-front : now < 2 ^ 64 → number_at 8 48 front ≡ now
  unfolding header_bytes to_le_bytes number_at
  now-front h = from_le_bytes-to_le_bytes 8 now h

  peek_header-front :
      (rest drives : List ℕ)
      → 0 < count
      → count ≤ 64
      → nodes < 2 ^ 64
      → now < 2 ^ 64
      → read_drives count rest ≡ inr drives
      → peek_header front rest ≡ inr record { written_at = now; nodes = nodes; drives = drives }
  unfolding peek_header
  peek_header-front rest drives some_volume few nodes_fit now_fit read =
      let counted : number_at 4 32 front ≡ count = count-front (omega arith) in
      let plausible : (count == 0 || ltb 64 count) ≡ false = ground (arith, some_volume, few) in
      rw (magic-front, version-front, counted, plausible, read)
        (ap (λ (n, t). inr record { written_at = t; nodes = n; drives = drives })
          (cc (nodes-front nodes_fit, now-front now_fit)))

-- A header with the bytes after it: `peek` takes it apart again.
peek-header :
    (n m count hash now : ℕ) (rest : List ℕ) (found : SnapshotError ⊎ SnapshotInfo)
    → peek_header (header_bytes n m count hash now) rest ≡ found
    → peek (header_bytes n m count hash now ++ rest) ≡ found
unfolding peek
peek-header n m count hash now rest found h = rw (header_length n m count hash now rest) (
    ap (λ (a : List ℕ). peek_header a (drop 64 (header_bytes n m count hash now ++ rest)))
      (take-header n m count hash now rest)
    ∙ ap (λ (b : List ℕ). peek_header (header_bytes n m count hash now) b)
        (drop-header n m count hash now rest)
    ∙ h)

-- A saved snapshot can be peeked at: while its names can be folded, it has between one and 64 volumes,
-- each with a record table and a drive that is a character, and its nodes and the time fit in 64 bits,
-- the file that is written is read back by `peek` as the time, the number of nodes and the drives in
-- order, and by `written_at` as the time, for any hash.
pub peek-saved :
    (digest : List ℕ → ℕ) (now : ℕ) (ix : Index) (rows : List Node) (names : List ℕ)
    → compact_names ix ≡ some (rows, names)
    → 0 < length ix.volumes
    → length ix.volumes ≤ 64
    → length ix.volumes ≤ length ix.rec_to_node
    → All HasDrive ix.volumes
    → length ix.nodes < 2 ^ 64
    → now < 2 ^ 64
    → (file : List ℕ) × (saved digest now ix ≡ some file)
      × (peek file
          ≡ inr record {
            written_at = now;
            nodes = length ix.nodes;
            drives = map (λ (v : VolumeInfo). v.drive) ix.volumes;
          })
      × (written_at file ≡ some now)
unfolding saved
peek-saved digest now ix rows names folded some_volume few tables chars nodes_fit now_fit =
    let n = length ix.nodes in
    let m = length names in
    let c = length ix.volumes in
    let payload = columns rows ++ names ++ table_bytes ix.rec_to_node in
    let body = volume_blocks ix.volumes ix.rec_to_node ++ payload in
    let read = read_drives-volume_blocks ix.volumes ix.rec_to_node payload tables chars in
    (
      header_bytes n m c (digest body) now ++ body,
      rw folded refl,
      peek-header n m c (digest body) now body _ (
          peek_header-front n m c (digest body) now body (map (λ v. v.drive) ix.volumes) some_volume
            few nodes_fit now_fit read),
      written_at-header n m c (digest body) now body now_fit,
    )
