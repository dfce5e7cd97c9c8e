-- ===== src/Version.antt =====
-- pkg/version/version.go. The variables that the linker sets, and what the package runtime tells, are
-- parameters.
use kube_smart_scheduler.Prelude.{◌++◌}
use kube_smart_scheduler.GoText.{Text, codes}

pub record Info : Type 0 where
  pub version : Text
  pub commit_hash : Text
  pub build_date : Text
  pub go_version : Text
  pub compiler : Text
  pub platform : Text

-- The variables of the package.
pub record Build : Type 0 where
  pub version : Text
  pub commit_hash : Text
  pub build_date : Text

-- Without the linker's flags.
abbrev pub unknown_build : Build
unknown_build = record {
  version = codes "unknown";
  commit_hash = codes "unknown";
  build_date = codes "unknown";
}

-- The package runtime: Version(), Compiler, GOOS and GOARCH.
pub record Runtime : Type 0 where
  pub version : Text
  pub compiler : Text
  pub goos : Text
  pub goarch : Text

unfoldable pub get : Build → Runtime → Info
get build runtime = record {
  version = build.version;
  commit_hash = build.commit_hash;
  build_date = build.build_date;
  go_version = runtime.version;
  compiler = runtime.compiler;
  platform = runtime.goos ++ (codes "/" ++ runtime.goarch);
}

-- The method String.
unfoldable pub string : Info → Text
string info =
    codes "Version: "
    ++ (info.version
        ++ (codes ", Commit: "
            ++ (info.commit_hash
                ++ (codes ", Built: "
                    ++ (info.build_date
                        ++ (codes ", Go: "
                            ++ (info.go_version ++ (codes ", Platform: " ++ info.platform))))))))

unfoldable pub get_version_string : Build → Text
get_version_string build = build.version
