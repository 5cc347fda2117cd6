-- ===== src/Planner/Terms.antt =====
-- The words by which default_supervisor_decision (planner.py) tells the kinds of requests apart.
use agentic_learning_platfor.Base.{Text, codes, List, [], ◌∷◌}

abbrev pub coach_terms : List Text
coach_terms = codes "learning_coach" ∷ codes "diagnostic" ∷ codes "practice" ∷ codes "coach" ∷ []

abbrev pub project_terms : List Text
project_terms = codes "project" ∷ codes "upgrade" ∷ codes "improvement" ∷ codes "interview" ∷ []

abbrev pub heavy_terms : List Text
heavy_terms =
    codes "面试"
    ∷ codes "提优"
    ∷ codes "提升"
    ∷ codes "学习计划"
    ∷ codes "学习提升"
    ∷ codes "学习路线"
    ∷ codes "学习路径"
    ∷ codes "方案"
    ∷ codes "规划"
    ∷ codes "计划"
    ∷ codes "设计"
    ∷ codes "架构"
    ∷ codes "重构"
    ∷ codes "工程化"
    ∷ codes "评估"
    ∷ codes "诊断"
    ∷ codes "薄弱"
    ∷ codes "练习"
    ∷ codes "训练"
    ∷ codes "模拟"
    ∷ codes "复盘"
    ∷ codes "批改"
    ∷ codes "评价"
    ∷ codes "准备"
    ∷ codes "安排"
    ∷ codes "制定"
    ∷ codes "简历"
    ∷ codes "岗位"
    ∷ codes "agent"
    ∷ codes "rag"
    ∷ []

abbrev pub rag_terms : List Text
rag_terms =
    codes "知识库"
    ∷ codes "文档"
    ∷ codes "资料"
    ∷ codes "有没有"
    ∷ codes "查"
    ∷ codes "检索"
    ∷ codes "引用"
    ∷ codes "根据"
    ∷ codes "材料"
    ∷ codes "是什么"
    ∷ codes "为什么"
    ∷ codes "区别"
    ∷ codes "原理"
    ∷ codes "？"
    ∷ codes "解释"
    ∷ codes "对比"
    ∷ codes "举例"
    ∷ codes "怎么理解"
    ∷ []

abbrev pub direct_terms : List Text
direct_terms =
    codes "是什么"
    ∷ codes "解释"
    ∷ codes "什么意思"
    ∷ codes "区别"
    ∷ codes "怎么理解"
    ∷ codes "你好"
    ∷ codes "谢谢"
    ∷ codes "早上好"
    ∷ codes "好的"
    ∷ codes "hello"
    ∷ codes "hi"
    ∷ codes "在吗"
    ∷ []
