-- ===== src/Boot/Messages.antt =====
-- What kernel/kernel/kernel.c puts on the screen: `printk_debug`, and the text that `kernel_main`
-- starts with.
use shawn_os.Prelude.{ℕ, List, [], ◌∷◌, codes}
use shawn_os.Textmode.{
  Textmode, setcolor, make_color, putchar, writestring, color_black, color_light_grey, newline,
}
use shawn_os.Isr.{color_red}
use shawn_os.Printf.{Arg, int32, printf}

abbrev color_cyan : ℕ
color_cyan = 3

unfoldable pub printk_debug : List ℕ → List Arg → Textmode → Textmode
printk_debug format args t = putchar newline (
    printf format args (
      setcolor (make_color color_light_grey color_black)
        (writestring (codes "DEBUG: ") (setcolor color_red t))))

-- `kernel_main` up to its test loop, with the addresses that it prints.
unfoldable pub welcome : ℕ → ℕ → ℕ → Textmode → Textmode
welcome heap_start heap_curpos highest_page t =
    printf (codes "kHighest page: 0x%x\n") (int32 highest_page ∷ []) (
      printf (codes "Heap curpos: 0x%x\n") (int32 heap_curpos ∷ []) (
        printf (codes "Heap start: 0x%x\n") (int32 heap_start ∷ []) (
          writestring (codes "!\n\n") (
            setcolor (make_color color_light_grey color_black) (
              writestring (codes "0.01 Alpha") (
                setcolor color_red (
                  writestring (codes "Version ") (
                    setcolor (make_color color_light_grey color_black) (
                      writestring (codes "ShawnOS ")
                        (setcolor color_cyan (writestring (codes "Welcome to ") t)))))))))))
