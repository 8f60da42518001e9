-- ===== src/Drivers/Ata/Transfer.antt =====
-- The data port of drivers/ata.c on a controller that follows the protocol: 256 words in a row.
use chris_os.Base.{ℕ, zero, suc, ◌+◌, ◌*◌, ◌/◌, ◌%◌, ◌^◌, ◌<◌, ◌≡◌, refl, ap, ap₂, ◌∙◌, true}
use chris_os.Base.{false, List, [], ◌∷◌, ◌++◌, arith, ◌==◌, eq→==, ne→==, length, get_or}
use chris_os.Base.{length-append, All}
use mathlib.Core.List.{append_assoc}
use chris_os.Drivers.Ata.{ata_data, ata_timeout, buffer_word, read_words, write_words}
use chris_os.Drivers.Ata.Protocol.{Channel, IsAta, idle, sending, receiving, put_sector}
use chris_os.Drivers.Ata.Protocol.{selected, addressed}
use chris_os.Drivers.Ports.{Ports}

-- The bytes in memory of words that are stored one after the other, and the words of a buffer.
abbrev pub bytes_of : List ℕ → List ℕ
bytes_of [] = []
bytes_of (w ∷ ws) = w % 2 ^ 8 ∷ w / 2 ^ 8 ∷ bytes_of ws

abbrev pub words_of : ℕ → ℕ → List ℕ → List ℕ
words_of zero i buf = []
words_of (suc count) i buf = buffer_word buf i ∷ words_of count (i + 1) buf

pub length-words_of : (count i : ℕ) (buf : List ℕ) → length (words_of count i buf) ≡ count
length-words_of zero i buf = refl
length-words_of (suc count) i buf = ap suc (length-words_of count (i + 1) buf)

abbrev pub AllBytes : List ℕ → Type 0
AllBytes buf = All (λ b. b < 256) buf

words_of-shift :
    (count i a b : ℕ) (buf : List ℕ) → words_of count (i + 1) (a ∷ b ∷ buf) ≡ words_of count i buf
unfolding buffer_word
words_of-shift zero i a b buf = refl
words_of-shift (suc count) i a b buf =
    let even : 2 * (i + 1) ≡ suc (suc (2 * i)) = omega arith in
    let odd : 2 * (i + 1) + 1 ≡ suc (suc (2 * i + 1)) = omega arith in
    let head : buffer_word (a ∷ b ∷ buf) (i + 1) ≡ buffer_word buf i =
      ap₂ (λ x y. x + y * 2 ^ 8) (ap (λ k. get_or (a ∷ b ∷ buf) k 0) even)
        (ap (λ k. get_or (a ∷ b ∷ buf) k 0) odd) in
    ap₂ ◌∷◌ head (words_of-shift count (i + 1) a b buf)

-- The words of a buffer of bytes are these bytes.
pub bytes_of-words_of :
    (count : ℕ) (buf : List ℕ)
    → length buf ≡ 2 * count
    → AllBytes buf
    → bytes_of (words_of count 0 buf) ≡ buf
unfolding buffer_word
bytes_of-words_of zero [] h all = refl
bytes_of-words_of zero (a ∷ buf) h all = absurd (omega arith)
bytes_of-words_of (suc count) [] h all = absurd (omega arith)
bytes_of-words_of (suc count) (a ∷ []) h all = absurd (omega arith)
bytes_of-words_of (suc count) (a ∷ b ∷ buf) h (ha, (hb, all)) =
    let low : (a + b * 2 ^ 8) % 2 ^ 8 ≡ a = omega arith in
    let high : (a + b * 2 ^ 8) / 2 ^ 8 ≡ b = omega arith in
    let rest = bytes_of-words_of count buf (omega arith) all in
    ap₂ ◌∷◌ low (ap₂ ◌∷◌ high (ap bytes_of (words_of-shift count 0 a b buf) ∙ rest))

module _ {S : Type 0} {ports : Ports S} {c : Channel S} (laws : IsAta ports c) where
  -- The words have all been read, and the controller is idle again.
  pub record Read (s : S) (ws : List ℕ) (r : List ℕ × S) : Type 0 where
    pub bytes : r.0 ≡ bytes_of ws
    pub sectors : c.sectors r.1 ≡ c.sectors s
    pub phase : c.phase r.1 ≡ idle
    pub busy : c.busy r.1 ≡ 0

  pub read_words-Read :
      (s : S) (ws : List ℕ)
      → c.busy s ≡ 0
      → c.phase s ≡ sending ws
      → 0 < length ws
      → Read s ws (read_words ports (length ws) s)
  unfolding read_words
  read_words-Read s [] d h k = absurd (omega arith)
  read_words-Read s (w ∷ []) d h k = record {
    bytes = ap (λ x. x % 2 ^ 8 ∷ x / 2 ^ 8 ∷ []) (laws.read_word s w [] d h);
    sectors = laws.read_sectors s w [] d h;
    phase = laws.read_next s w [] d h;
    busy = laws.read_busy s w [] d h;
  }
  read_words-Read s (w ∷ v ∷ ws) d h k =
      let t = (ports.inw ata_data s).1 in
      let more : (suc (length ws) == 0) ≡ false = ne→== (suc (length ws)) 0 (ground arith) in
      let phase : c.phase t ≡ sending (v ∷ ws) = laws.read_next s w (v ∷ ws) d h ∙ rw more refl in
      let next = read_words-Read t (v ∷ ws) (laws.read_busy s w (v ∷ ws) d h) phase (omega arith) in
      record {
        bytes =
            ap₂ (λ x bs. x % 2 ^ 8 ∷ x / 2 ^ 8 ∷ bs) (laws.read_word s w (v ∷ ws) d h) next.bytes;
        sectors = next.sectors ∙ laws.read_sectors s w (v ∷ ws) d h;
        phase = next.phase;
        busy = next.busy;
      }

  -- The last word has been written: the sector holds the words that came.
  pub record Written (s : S) (ws : List ℕ) (t : S) : Type 0 where
    pub sectors :
        c.sectors t
        ≡ put_sector (c.sectors s) (selected (c.register s)) (addressed (c.register s)) ws
    pub phase : c.phase t ≡ idle
    pub busy : c.busy t < ata_timeout

  pub write_words-Written :
      (count i : ℕ) (buf : List ℕ) (s : S) (ws : List ℕ)
      → c.busy s ≡ 0
      → c.phase s ≡ receiving ws
      → length ws + suc count ≡ 256
      → Written s (ws ++ words_of (suc count) i buf) (write_words ports (suc count) i buf s)
  unfolding write_words
  write_words-Written zero i buf s ws d h k =
      let v = buffer_word buf i in
      let full : (length ws == 255) ≡ true = eq→== (length ws) 255 (omega arith) in
      record {
        sectors = laws.write_sectors s v ws d h ∙ rw full refl;
        phase = laws.write_next s v ws d h ∙ rw full refl;
        busy = laws.write_busy s v ws d h;
      }
  write_words-Written (suc count) i buf s ws d h k =
      let v = buffer_word buf i in
      let t = ports.outw ata_data v s in
      let more : (length ws == 255) ≡ false = ne→== (length ws) 255 (ground arith) in
      let sectors : c.sectors t ≡ c.sectors s = laws.write_sectors s v ws d h ∙ rw more refl in
      let phase : c.phase t ≡ receiving (ws ++ (v ∷ [])) =
        laws.write_next s v ws d h ∙ rw more refl in
      let next =
        write_words-Written count (i + 1) buf t (ws ++ (v ∷ []))
          (laws.write_more s v ws d h (omega arith)) phase
          (omega (arith, length-append ws (v ∷ []))) in
      let rest = words_of (suc count) (i + 1) buf in
      let same = laws.write_register s v ws d h in
      record {
        sectors =
            next.sectors
            ∙ ap₂ (λ f r. put_sector f (selected r) (addressed r) (ws ++ (v ∷ []) ++ rest)) sectors
                same
            ∙ ap (put_sector (c.sectors s) (selected (c.register s)) (addressed (c.register s)))
                (append_assoc ws (v ∷ []) rest);
        phase = next.phase;
        busy = next.busy;
      }
