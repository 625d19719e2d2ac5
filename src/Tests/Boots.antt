-- ===== src/Tests/Boots.antt =====
-- The theorems about the text of scripts at small inputs.
use home_lab_pxe.Prelude.{
  ◌≡◌, ◌↔◌, refl, true, false, not, text_eq, codes, inl, none, [], ◌∷◌, ◌++◌, In, is_nil, where_is,
  is_space,
}
use home_lab_pxe.Readiness.{image_deploy_blocked}
use home_lab_pxe.BootMenu.{in_folder}
use home_lab_pxe.Scripts.{tokens, has_prefix, nocloud, linux_kernel_args, print_lines}
use home_lab_pxe.Scripts.Menu.{MenuPage, label, menu_images, menu_lines, target_line}
use home_lab_pxe.Scripts.Labels.{IsLabel, label-IsLabel}
use home_lab_pxe.Scripts.Pages.{read_lines, menu_images-shown, menu_lines-read}
use home_lab_pxe.Scripts.Targets.{offer_line, menu_lines-targets}
use home_lab_pxe.Scripts.Arguments.{tokens-linux_kernel_args}
use home_lab_pxe.Tests.Data.{environment, debian, ready_lab, folder_named}

label-IsLabel_example : IsLabel (label (codes "a | b ${net0/mac}"))
label-IsLabel_example = label-IsLabel (codes "a | b ${net0/mac}")

menu_images-shown_example : In debian (menu_images environment 1 ready_lab) ↔ (
    In debian ready_lab.images
    × (in_folder 1 debian ≡ true)
    × (image_deploy_blocked environment debian ≡ false))
menu_images-shown_example = menu_images-shown environment 1 ready_lab debian

abbrev page : MenuPage
page = record {
  root_url = codes "http://lab/ipxe/m1";
  title = codes "Boot";
  continue_label = codes "Go on";
  timeout_ms = 10000;
  folder = none;
  children = folder_named 1 (codes "Linux") ∷ [];
  images = [];
}

menu_lines-read_example : read_lines (print_lines (menu_lines page)) ≡ menu_lines page
menu_lines-read_example = menu_lines-read page refl

menu_lines-targets_example :
    In (offer_line (codes "local", label (codes "Go on"))) (menu_lines page)
    × In (target_line (codes "local")) (menu_lines page)
menu_lines-targets_example =
    menu_lines-targets page (codes "local", label (codes "Go on")) (inl refl)

tokens-linux_kernel_args_example :
    tokens (linux_kernel_args environment (codes "quiet ---") (codes "ip=dhcp" ∷ []))
    ≡ (codes "autoinstall"
        ∷ where_is
            (λ token. not (text_eq token (codes "---")))
            (where_is
              (λ token. not (has_prefix environment (codes "autoinstall") token))
              (tokens (codes "quiet ---"))))
      ++ (where_is (λ part. not (is_nil part)) (codes "ip=dhcp" ∷ [])
          ++ (nocloud ∷ codes "autoinstall" ∷ codes "---" ∷ []))
unfolding is_space
tokens-linux_kernel_args_example =
    tokens-linux_kernel_args environment (codes "quiet ---") (codes "ip=dhcp" ∷ []) (refl, tt)
