-- ===== src/Sandbox/Written.antt =====
-- internal/sandbox: a script, from its text to its result, makes no key of the prototype chain. The
-- parser refuses such a key in an object literal, and no operation of the interpreter makes one.
