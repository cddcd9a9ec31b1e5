-- ===== src/Ml/Tokens.antt =====
-- The tokens that `MLGuard` of quickapi/ml/guard.py looks for in a request, and the messages and hints
-- of their groups.
use quick_api.Base.{Text, codes, List, [], ◌∷◌}
use quick_api.Ml.Signals.{Severity, high, critical}

-- `SECRET_TOKENS`, `SSRF_TOKENS`, `CODE_TOKENS` and `HIGH_RISK_EXTENSIONS`
abbrev pub secret_tokens : List Text
secret_tokens =
    codes "api_key"
    ∷ codes "apikey"
    ∷ codes "secret"
    ∷ codes "password"
    ∷ codes "passwd"
    ∷ codes "access_token"
    ∷ codes "refresh_token"
    ∷ codes "private_key"
    ∷ codes "authorization"
    ∷ []

abbrev pub ssrf_tokens : List Text
ssrf_tokens =
    codes "169.254.169.254"
    ∷ codes "metadata.google.internal"
    ∷ codes "localhost:"
    ∷ codes "127.0.0.1:"
    ∷ codes "0.0.0.0:"
    ∷ codes "file://"
    ∷ codes "gopher://"
    ∷ codes "ftp://"
    ∷ []

abbrev pub code_tokens : List Text
code_tokens =
    codes "eval("
    ∷ codes "exec("
    ∷ codes "subprocess"
    ∷ codes "os.system"
    ∷ codes "child_process"
    ∷ codes "require("
    ∷ codes "importlib"
    ∷ codes "__import__"
    ∷ codes "powershell"
    ∷ codes "cmd.exe"
    ∷ codes "/bin/sh"
    ∷ codes "xp_cmdshell"
    ∷ []

abbrev pub high_risk_extensions : List Text
high_risk_extensions =
    codes ".php"
    ∷ codes ".phtml"
    ∷ codes ".asp"
    ∷ codes ".aspx"
    ∷ codes ".jsp"
    ∷ codes ".exe"
    ∷ codes ".bat"
    ∷ codes ".cmd"
    ∷ codes ".ps1"
    ∷ codes ".sh"
    ∷ codes ".dll"
    ∷ codes ".so"
    ∷ []

-- A group of tokens: its code, the words of its message, and the hint of `_hint_for_code`.
pub record TokenGroup : Type 0 where
  pub code : Text
  pub words : Text
  pub severity : Severity
  pub hint : Text
  pub tokens : List Text

abbrev pub token_groups : List TokenGroup
token_groups =
    record {
      code = codes "secret:exposed";
      words = codes "exposed";
      severity = high;
      hint = codes "Do not accept secrets in public request bodies unless this is an auth route.";
      tokens = secret_tokens;
    }
    ∷ record {
      code = codes "ssrf:probe";
      words = codes "probe";
      severity = critical;
      hint = codes "Block internal network and metadata targets before making outbound requests.";
      tokens = ssrf_tokens;
    }
    ∷ record {
      code = codes "code:execution_token";
      words = codes "execution token";
      severity = critical;
      hint =
          codes
            "Never pass request content directly to shell, eval, subprocess or template execution.";
      tokens = code_tokens;
    }
    ∷ record {
      code = codes "file:dangerous_extension";
      words = codes "dangerous extension";
      severity = high;
      hint = codes "Use an allowlist for upload extensions and stream files outside the web root.";
      tokens = high_risk_extensions;
    }
    ∷ []
