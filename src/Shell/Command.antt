-- ===== src/Shell/Command.antt =====
-- The table of commands of shell/shell.c.
use chris_os.Base.{ℕ, List, if◌then◌else◌, drop}
use chris_os.Base.Text.{codes}
use chris_os.Kernel.Text.{same_string, same_prefix}

-- The commands, by the text that begins them.
pub data Command : Type 0 where
  help : Command
  install : Command
  clear : Command
  version : Command
  echo : List ℕ → Command
  meminfo : Command
  uptime : Command
  reboot : Command
  ls : Command
  cat : List ℕ → Command
  disk : Command
  ui : Command
  exec : List ℕ → Command
  ifconfig : Command
  dhcp : Command
  ping : List ℕ → Command
  nslookup : List ℕ → Command
  wget : List ℕ → Command
  unknown : List ℕ → Command

-- The chain of comparisons in `shell_execute`.
unfoldable pub command_of : List ℕ → Command
command_of cmd =
    if same_string cmd (codes "help")
    then help
    else if same_string cmd (codes "install")
    then install
    else if same_string cmd (codes "clear")
    then clear
    else if same_string cmd (codes "version")
    then version
    else if same_prefix 5 cmd (codes "echo ")
    then echo (drop 5 cmd)
    else if same_string cmd (codes "meminfo")
    then meminfo
    else if same_string cmd (codes "uptime")
    then uptime
    else if same_string cmd (codes "reboot")
    then reboot
    else if same_string cmd (codes "ls")
    then ls
    else if same_prefix 4 cmd (codes "cat ")
    then cat (drop 4 cmd)
    else if same_string cmd (codes "disk")
    then disk
    else if same_string cmd (codes "ui")
    then ui
    else if same_prefix 5 cmd (codes "exec ")
    then exec (drop 5 cmd)
    else if same_string cmd (codes "ifconfig")
    then ifconfig
    else if same_string cmd (codes "dhcp")
    then dhcp
    else if same_prefix 5 cmd (codes "ping ")
    then ping (drop 5 cmd)
    else if same_prefix 9 cmd (codes "nslookup ")
    then nslookup (drop 9 cmd)
    else if same_prefix 5 cmd (codes "wget ")
    then wget (drop 5 cmd)
    else unknown cmd
