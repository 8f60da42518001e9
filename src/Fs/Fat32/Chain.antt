-- ===== src/Fs/Fat32/Chain.antt =====
-- The chains of clusters in the table of fs/fat32.c, and freeing one.
use chris_os.Base.{set, ℕ, zero, suc, ◌+◌, ◌/◌, ◌%◌, ◌^◌, ◌≤◌, ◌<◌, ◌≡◌, refl, sym, ◌∙◌, ◌≢◌}
use chris_os.Base.{Bool, true, false, ◌||◌, inl, inr, some, List, [], ◌∷◌, arith, ltb, ◌==◌}
use chris_os.Base.{if◌then◌else◌, Bool-cases, ne→==, length, length-set, All}
use chris_os.Base.Word.{u32}
use mathlib.Core.Path.{subst}
use chris_os.Fs.Fat32.Areas.{Written, unchanged, written, Written-params, Written-trans}
use chris_os.Fs.Fat32.Layout.{IsCluster-Written, IsCluster, IsLaidOut, IsLaidOut-Written}
use chris_os.Fs.Fat32.Sectors.{length-read_sector}
use chris_os.Fs.Fat32.Table.{Volume, Sector, fat_get, fat_set, read_sector, fat_sector}
use chris_os.Fs.Fat32.Table.{fat_offset, word_at, write_fats, set_word, merge_entry}
use chris_os.Fs.Fat32.Table.{fat_free_chain, in_chain}
use chris_os.Fs.Fat32.Table.Laws.{fat_get-fat_set, HasEntry}

length-set_word : (buf : Sector) (off w : ℕ) → length (set_word buf off w) ≡ length buf
length-set_word buf off w =
    let b0 = set buf off (w % 256) in
    let b1 = set b0 (off + 1) (w / 2 ^ 8 % 256) in
    let b2 = set b1 (off + 2) (w / 2 ^ 16 % 256) in
    length-set b2 (off + 3) (w / 2 ^ 24 % 256)
    ∙ (length-set b1 (off + 2) (w / 2 ^ 16 % 256)
        ∙ (length-set b0 (off + 1) (w / 2 ^ 8 % 256) ∙ length-set buf off (w % 256)))

write_fats-Written :
    (v : Volume) (first second : ℕ) (buf : Sector)
    → v.fat_start ≤ first
    → first < v.data_start
    → (ltb 1 v.fat_count ≡ true → (v.fat_start ≤ second) × (second < v.data_start))
    → length buf ≡ 512
    → Written v.fat_start v.data_start v (write_fats v first second buf)
unfolding write_fats
write_fats-Written v first second buf a b two len = elim (Bool-cases (ltb 1 v.fat_count)) [
  | inl e ↦ rw e (written first buf a b len (written second buf (two e).0 (two e).1 len unchanged))
  | inr e ↦ rw e (written first buf a b len unchanged)
]

-- `fat_set` writes sectors of the tables only.
pub fat_set-Written :
    (v : Volume) (c value : ℕ)
    → IsLaidOut v
    → IsCluster v c
    → Written v.fat_start v.data_start v (fat_set v c value)
unfolding fat_set
fat_set-Written v c value lay is =
    let n = lay.numbers in
    let t = lay.tables in
    let room = lay.volume.room in
    let old = read_sector v (fat_sector v c) in
    write_fats-Written v (fat_sector v c) (u32 (fat_sector v c + v.sectors_per_fat))
      (set_word old (fat_offset c) (merge_entry (word_at old (fat_offset c)) value)) (omega arith)
      (ground arith) (λ e. ground arith)
      (length-set_word old (fat_offset c) _
        ∙ length-read_sector v (fat_sector v c) lay.volume.sectors)

-- The clusters of a chain, from its first one on: each one stands once, and each entry names the
-- next one.
abbrev pub IsChain : Volume → ℕ → List ℕ → Type 0
IsChain v c [] = in_chain c ≡ false
IsChain v c (d ∷ cs) = (d ≡ c) × IsCluster v c × All (λ e. e ≢ c) cs × IsChain v (fat_get v c) cs

abbrev pub listed : ℕ → List ℕ → Bool
listed c [] = false
listed c (d ∷ cs) = c == d || listed c cs

pub in_chain-IsCluster : (v : Volume) (c : ℕ) → IsLaidOut v → IsCluster v c → in_chain c ≡ true
in_chain-IsCluster v c lay is = let n = lay.numbers in ground arith

has_entry : (v : Volume) (c : ℕ) → IsLaidOut v → IsCluster v c → HasEntry v c
has_entry v c lay is = let n = lay.numbers in omega arith

-- A chain stays one when the entries of its clusters stay.
IsChain-same :
    {lo hi : ℕ} {v w : Volume} (c : ℕ) (cs : List ℕ)
    → Written lo hi v w
    → All (λ d. IsCluster v d → fat_get w d ≡ fat_get v d) cs
    → IsChain v c cs
    → IsChain w c cs
IsChain-same c [] wr same chain = chain
IsChain-same {lo} {hi} {v} {w} c (d ∷ cs) wr same chain = (
  chain.0,
  IsCluster-Written c wr chain.1,
  chain.2,
  subst (λ n. IsChain w n cs)
      (sym (subst (λ e. IsCluster v e → fat_get w e ≡ fat_get v e) chain.0 same.0 chain.1))
      (IsChain-same (fat_get v c) cs wr same.1 chain.3),
)

-- The entries of other clusters after `fat_set`.
others_same :
    (v : Volume) (c value : ℕ) (cs : List ℕ)
    → IsLaidOut v
    → IsCluster v c
    → All (λ e. e ≢ c) cs
    → All (λ d. IsCluster v d → fat_get (fat_set v c value) d ≡ fat_get v d) cs
others_same v c value [] lay is ne = tt
others_same v c value (d ∷ cs) lay is ne = (
  λ isd.
      fat_get-fat_set v c d value lay.volume (has_entry v c lay is) (has_entry v d lay isd)
      ∙ rw (ne→== c d (λ e. ne.0 (sym e))) refl,
  others_same v c value cs lay is ne.1,
)

-- What freeing a chain leaves.
pub record IsFreed (v : Volume) (cs : List ℕ) (w : Volume) : Type 0 where
  pub tables_only : Written v.fat_start v.data_start v w
  pub entries : (d : ℕ) → IsCluster v d → fat_get w d ≡ (if listed d cs then 0 else fat_get v d)

-- Freeing a chain, with fuel for one step more than it has clusters, returns a volume in which the
-- entries of exactly its clusters are 0, and of which only sectors of the tables have been written.
pub fat_free_chain_lem :
    (v : Volume) (c fuel : ℕ) (cs : List ℕ)
    → IsLaidOut v
    → IsChain v c cs
    → length cs < fuel
    → (w : Volume) × (fat_free_chain fuel v c ≡ some w) × IsFreed v cs w
unfolding fat_free_chain
fat_free_chain_lem v c zero cs lay chain h = absurd (omega arith)
fat_free_chain_lem v c (suc fuel) [] lay chain h =
    (v, rw chain refl, record { tables_only = unchanged; entries = λ d is. refl })
fat_free_chain_lem v c (suc fuel) (d ∷ cs) lay chain h =
    let is = chain.1 in
    let set_0 = fat_set-Written v c 0 lay is in
    let w = fat_set v c 0 in
    let rest =
      fat_free_chain_lem w (fat_get v c) fuel cs (IsLaidOut-Written lay set_0)
        (IsChain-same (fat_get v c) cs set_0 (others_same v c 0 cs lay is chain.2) chain.3)
        (omega arith) in
    let freed = rest.2 in
    (
      rest.0,
      rw (in_chain-IsCluster v c lay is) rest.1,
      record {
        tables_only = Written-trans set_0 (
            subst (λ x. Written x.fat_start x.data_start w rest.0) (sym (Written-params set_0))
              freed.tables_only);
        entries = λ e ise.
            freed.entries e (IsCluster-Written e set_0 ise)
            ∙ (let g =
                  fat_get-fat_set v c e 0 lay.volume (has_entry v c lay is)
                    (has_entry v e lay ise) in
                rw (chain.0, g) (ground arith));
      },
    )
