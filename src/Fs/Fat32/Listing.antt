-- ===== src/Fs/Fat32/Listing.antt =====
-- `fat32_ls` of fs/fat32.c: what it prints of the root directory.
use chris_os.Base.{ℕ, zero, suc, ◌+◌, ◌/◌, List, [], ◌∷◌, ◌++◌, ◌==◌, if◌then◌else◌, get_or}
use chris_os.Base.Int.{int32}
use chris_os.Fs.Fat32.Dir.{entry_size}
use chris_os.Fs.Fat32.Files.{cluster_size}
use chris_os.Fs.Fat32.Table.{Volume, read_cluster}
use chris_os.Kernel.Terminal.{TermCall, putchar, writestring, writetext}
use chris_os.Kernel.Text.{itoa}

-- The characters from index `i` up to a space, `left` of them at most.
unfoldable pub until_space : List ℕ → ℕ → ℕ → List TermCall
until_space buf zero i = []
until_space buf (suc left) i =
    let rest = until_space buf left (i + 1) in
    if get_or buf i 0 == b' ' then [] else putchar (get_or buf i 0) ∷ rest

-- The line of the entry at an offset.
unfoldable pub ls_entry : List ℕ → ℕ → List TermCall
ls_entry buf off =
    until_space buf 8 off
    ++ ((if get_or buf (off + 8) 0 == b' ' then [] else putchar b'.' ∷ until_space buf 3 (off + 8))
        ++ (writestring "  ("
            ∷ writetext (itoa (int32 (entry_size buf off)))
            ∷ writestring " B)\n"
            ∷ []))

-- The loop with `left` entries to go: what it prints, and `count`.
unfoldable pub ls_from : List ℕ → ℕ → ℕ → ℕ → List TermCall × ℕ
ls_from buf zero off count = ([], count)
ls_from buf (suc left) off count =
    let skip = ls_from buf left (off + 32) count in
    let next = ls_from buf left (off + 32) (count + 1) in
    if get_or buf off 0 == 0
    then ([], count)
    else if get_or buf off 0 == 0xE5
    then skip
    else if get_or buf (off + 11) 0 == 0x0F
    then skip
    else (ls_entry buf off ++ next.0, next.1)

unfoldable pub fat32_ls : Volume → List TermCall
fat32_ls v =
    let listed = ls_from (read_cluster v v.root_cluster) (cluster_size v / 32) 0 0 in
    listed.0 ++ (if listed.1 == 0 then writestring "(empty)\n" ∷ [] else [])
